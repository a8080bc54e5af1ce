-- ===== src/Approvals.antt =====
-- src/approvals.rs: human approvals of single requests. Each operation holds the store's lock from
-- its first read to its last write, so it is one step from store to store. `now` is the clock.
pub mod Once
pub mod Behaviour
mod Tests
use tux_bridge.Prelude.{
  ℕ, Str, String, Bool, true, false, ◌&&◌, Option, none, some, List, [], ◌∷◌, leb, if◌then◌else◌,
  eq_str,
}
use tux_bridge.Prelude.Dict.{Dict, get, insert, values}
use tux_bridge.Error.{ApiResult, ok, err, not_found, conflict, says, text, quoted, shown, Message}
use tux_bridge.Ids.{format_id, fetch_next}
use tux_bridge.Events
use tux_bridge.Events.{EventHub, emit}

pub data ApprovalStatus : Type 0 where
  pending approved denied consumed : ApprovalStatus

pub record ApprovalRecord : Type 0 where
  pub id : Str
  pub path : Str
  pub status : ApprovalStatus
  pub created_at_unix_ms : ℕ

pub record ApprovalStore : Type 0 where
  pub inner : Dict ApprovalRecord
  pub next : ℕ

abbrev pub new_store : ApprovalStore
new_store = record { inner = []; next = 0 }

-- `status == other`
abbrev pub is_pending : ApprovalStatus → Bool
is_pending pending = true
is_pending _ = false

abbrev pub is_approved : ApprovalStatus → Bool
is_approved approved = true
is_approved _ = false

unfoldable pub create : ℕ → Str → ApprovalStore → ApprovalRecord × ApprovalStore
unfolding fetch_next
create now path s =
    let (sequence, next) = fetch_next s.next in
    let id = format_id "approval-" sequence in
    let item : ApprovalRecord = record {
      id = id;
      path = path;
      status = pending;
      created_at_unix_ms = now;
    } in
    (item, record { inner = insert id item s.inner; next = next })

-- The test and the write of `consume`, on the record that `get_mut` found.
unfoldable pub consume_found : Str → Str → ApprovalRecord → ApprovalStore → Bool × ApprovalStore
consume_found id path item s =
    if eq_str item.path path && is_approved item.status
    then (true, record s { inner = insert id (record item { status = consumed }) s.inner })
    else (false, s)

unfoldable pub consume : Str → Str → ApprovalStore → Bool × ApprovalStore
unfolding consume_found
consume id path s = elim (get id s.inner) [
  | none ↦ (false, s)
  | some item ↦ consume_found id path item s
]

unfoldable pub set_found :
    Str → ApprovalStatus → ApprovalRecord → ApprovalStore → ApiResult ApprovalRecord × ApprovalStore
set_found id status item s =
    let updated : ApprovalRecord = record item { status = status } in
    let stored = record s { inner = insert id updated s.inner } in
    if is_pending item.status
    then (ok updated, stored)
    else (err (conflict (says "approval is no longer pending")), s)

unfoldable pub set : Str → ApprovalStatus → ApprovalStore → ApiResult ApprovalRecord × ApprovalStore
unfolding set_found
set id status s = elim (get id s.inner) [
  | none ↦ (err (not_found (text "approval " ∷ quoted id ∷ text " not found" ∷ [])), s)
  | some item ↦ set_found id status item s
]

-- `sort_by_key(|v| v.created_at_unix_ms)`, a stable sort.
insert_by_time : ApprovalRecord → List ApprovalRecord → List ApprovalRecord
insert_by_time r [] = r ∷ []
insert_by_time r (x ∷ xs) =
    if leb r.created_at_unix_ms x.created_at_unix_ms then r ∷ x ∷ xs else x ∷ insert_by_time r xs

sort_by_time : List ApprovalRecord → List ApprovalRecord
unfolding insert_by_time
sort_by_time [] = []
sort_by_time (r ∷ rs) = insert_by_time r (sort_by_time rs)

pub list : ApprovalStore → List ApprovalRecord
unfolding sort_by_time
list s = sort_by_time (values s.inner)

-- The handlers `approve` and `deny`: the store's change, and the event on success.
announce : String → String → ℕ → ApiResult ApprovalRecord → EventHub → EventHub
announce kind verb now (err e) hub = hub
announce kind verb now (ok r) hub = emit hub (record {
  now = now;
  kind = kind;
  workspace = none;
  summary = text verb ∷ shown r.path ∷ [];
  value = ("approval_id", Events.text r.id) ∷ ("path", Events.text r.path) ∷ [];
})

unfoldable pub approve :
    ℕ → Str → ApprovalStore → EventHub → ApiResult ApprovalRecord × ApprovalStore × EventHub
unfolding announce
approve now id s hub =
    let (r, s') = set id approved s in (r, s', announce "approval.approved" "approved " now r hub)

unfoldable pub deny :
    ℕ → Str → ApprovalStore → EventHub → ApiResult ApprovalRecord × ApprovalStore × EventHub
unfolding announce
deny now id s hub =
    let (r, s') = set id denied s in (r, s', announce "approval.denied" "denied " now r hub)
