-- ===== src/Http.antt =====
-- Requests and responses, as far as the middleware of src/auth.rs and src/hardening.rs reads and
-- writes them.
use tux_bridge.Prelude.{ℕ, String, Str, Option, none, some}
use tux_bridge.Prelude.Dict.{Dict}
use tux_bridge.Json.{Json}

-- A header value is visible ASCII, where `HeaderValue::to_str` succeeds, or it is not.
pub data HeaderValue : Type 0 where
  visible : Str → HeaderValue
  opaque : HeaderValue

unfoldable pub to_str : Option HeaderValue → Option Str
to_str none = none
to_str (some (visible s)) = some s
to_str (some opaque) = none

pub record Request : Type 0 where
  pub method : Str
  pub path : Str
  pub authorization : Option HeaderValue
  pub approval_id : Option HeaderValue
  pub body : Json

pub data Body : Type 0 where
  error : String → String → Body
  approval_required : (approval_id path : Str) → Body
  payload : Json → Body

pub record Response : Type 0 where
  pub status : ℕ
  pub headers : Dict Str
  pub body : Body
