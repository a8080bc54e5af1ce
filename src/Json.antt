-- ===== src/Json.antt =====
-- `serde_json::Value`, as far as the program reads it. Objects keep their fields in map order.
use tux_bridge.Prelude.{ℕ, Bool, Str, Option, none, some, eq_str, if◌then◌else◌}

mutual
  pub data Json : Type 0 where
    null : Json
    boolean : Bool → Json
    number : ℕ → Json
    string : Str → Json
    array : Items → Json
    object : Fields → Json

  pub data Items : Type 0 where
    nil : Items
    cons : Json → Items → Items

  pub data Fields : Type 0 where
    end : Fields
    field : Str → Json → Fields → Fields

unfoldable pub find_field : Str → Fields → Option Json
find_field k end = none
find_field k (field j v fs) = if eq_str j k then some v else find_field k fs

-- `Value::get` at a string, `as_object`, `as_str`.
unfoldable pub get_field : Str → Json → Option Json
unfolding find_field
get_field k (object fs) = find_field k fs
get_field k null = none
get_field k _ = none

unfoldable pub as_object : Json → Option Fields
as_object (object fs) = some fs
as_object null = none
as_object _ = none

unfoldable pub as_str : Json → Option Str
as_str (string s) = some s
as_str null = none
as_str _ = none
