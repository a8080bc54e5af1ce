-- ===== src/Approvals/Behaviour.antt =====
-- What one call of `consume`, `set` or `create` does to the store.
use tux_bridge.Prelude.{
  ◌≡◌, ◌↔◌, Str, true, false, some, if◌then◌else◌, eq_str, eq_str_iff, arith, Option-cases, inl,
  inr, ◌⊎◌, Bool-cases,
}
use tux_bridge.Prelude.Dict.{get, insert, get-insert}
use tux_bridge.Approvals.{
  ApprovalStatus, approved, consumed, ApprovalRecord, ApprovalStore, consume,
}

-- The record `id` is there, approved, and for this path.
pub record IsGranted (s : ApprovalStore) (id path : Str) : Type 0 where
  pub item : ApprovalRecord
  pub found : get id s.inner ≡ some item
  pub same_path : item.path ≡ path
  pub is_approved : item.status ≡ approved

-- The store in which the record's status has changed, and nothing else.
abbrev pub with_status : ApprovalStatus → Str → ApprovalRecord → ApprovalStore → ApprovalStore
with_status status id item s = record s {
  inner = insert id (record item { status = status }) s.inner;
}

pub consume_granted :
    (id path : Str) (s : ApprovalStore) (g : IsGranted s id path)
    → consume id path s ≡ (true, with_status consumed id g.item s)
unfolding consume
consume_granted id path s g =
    ground (arith, eq_str_iff g.item.path path, g.found, g.same_path, g.is_approved)

pub consume-true :
    (id path : Str) (s : ApprovalStore) → (consume id path s).0 ≡ true → IsGranted s id path
unfolding consume
consume-true id path s h = elim (Option-cases (get id s.inner)) [
  | inl missing ↦ absurd (ground arith)
  | inr (item, found) ↦ record {
    item = item;
    found = found;
    same_path = ground (arith, eq_str_iff item.path path);
    is_approved = ground arith;
  }
]

pub consume-false :
    (id path : Str) (s : ApprovalStore) → (consume id path s).0 ≡ false → (consume id path s).1 ≡ s
unfolding consume
consume-false id path s h = elim (Option-cases (get id s.inner)) [
  | inl missing ↦ ground arith
  | inr (item, found) ↦ ground arith
]

-- `consume` succeeds exactly on an approved record for the request's path. Either it fails and the
-- store is what it was, or it succeeds, and what it leaves under any key `j` is the old entry, but
-- under `id` the record with its status, and nothing else, changed to consumed.
pub consume_lem :
    (id path j : Str) (s : ApprovalStore)
    → (((consume id path s).0 ≡ true) ↔ IsGranted s id path)
      × ((((consume id path s).0 ≡ false) × ((consume id path s).1 ≡ s))
          ⊎ (((consume id path s).0 ≡ true)
              × (g : IsGranted s id path) × (get j (consume id path s).1.inner ≡ (
                  if eq_str id j
                  then some (record g.item { status = consumed })
                  else get j s.inner))))
consume_lem id path j s = (
  (consume-true id path s, λ g. rw (consume_granted id path s g)),
  elim (Bool-cases (consume id path s).0) [
    | inr failed ↦ inl (failed, consume-false id path s failed)
    | inl done ↦
        let g = consume-true id path s done in
        inr (done, g, rw (consume_granted id path s g) (get-insert id j _ s.inner))
  ],
)
