-- ===== src/Approvals/Once.antt =====
-- An approval is spent at most once: counts over arbitrary sequences of operations on the store.
use tux_bridge.Prelude.{
  ℕ, ◌+◌, ◌≤◌, ◌<◌, ◌≡◌, ◌≢◌, refl, Str, Bool, true, false, Option, none, some, List, [], ◌∷◌,
  length, if◌then◌else◌, eq_str, eq_str_iff, arith, suc, inl, inr, Option-cases,
}
use tux_bridge.Prelude.Dict.{get, insert, get-insert}
use tux_bridge.Error.{is_ok}
use tux_bridge.Ids.{format_id, u64_mod}
use tux_bridge.Ids.Distinct.{format_id_inj}
use tux_bridge.Approvals.{
  ApprovalStatus, pending, approved, denied, consumed, ApprovalRecord, ApprovalStore, new_store,
  create, consume, set, is_pending, is_approved,
}

-- The calls that the gate and the two handlers make.
pub data Operation : Type 0 where
  create_for : (now : ℕ) (path : Str) → Operation
  consume_for : (id path : Str) → Operation
  approve_id deny_id : (id : Str) → Operation

unfoldable pub run : Operation → ApprovalStore → ApprovalStore
run (create_for now path) s = (create now path s).1
run (consume_for id path) s = (consume id path s).1
run (approve_id id) s = (set id approved s).1
run (deny_id id) s = (set id denied s).1

abbrev bit : Bool → ℕ
bit true = 1
bit false = 0

-- 1 if this operation consumes the approval `id`; 1 if it approves it.
pub spends : Str → Operation → ApprovalStore → ℕ
spends id (consume_for other path) s = if eq_str id other then bit (consume other path s).0 else 0
spends id _ s = 0

pub grants : Str → Operation → ApprovalStore → ℕ
grants id (approve_id other) s = if eq_str id other then bit (is_ok (set other approved s).0) else 0
grants id _ s = 0

-- How often `id` is consumed, and approved, when the operations run in this order.
pub times_spent : Str → List Operation → ApprovalStore → ℕ
times_spent id [] s = 0
times_spent id (o ∷ os) s = spends id o s + times_spent id os (run o s)

pub times_granted : Str → List Operation → ApprovalStore → ℕ
times_granted id [] s = 0
times_granted id (o ∷ os) s = grants id o s + times_granted id os (run o s)

-- How many consumptions, and approvals, a record still allows.
abbrev spendable : Option ApprovalRecord → ℕ
spendable none = 0
spendable (some r) = bit (is_approved r.status)

abbrev grantable : Option ApprovalRecord → ℕ
grantable none = 1
grantable (some r) = bit (is_pending r.status)

spent-step :
    (id : Str) (o : Operation) (s : ApprovalStore)
    → spends id o s + spendable (get id (run o s).inner)
      ≤ grants id o s + spendable (get id s.inner)
unfolding spends grants run create consume set
spent-step id (create_for now path) s = simp get-insert (ground arith)
spent-step id (consume_for other path) s = elim (Option-cases (get other s.inner)) [
  | inl missing ↦ ground arith
  | inr (item, found) ↦
      let put = get-insert other id (record item { status = consumed }) s.inner in
      ground (arith, put, eq_str_iff id other, eq_str_iff other id)
]
spent-step id (approve_id other) s = elim (Option-cases (get other s.inner)) [
  | inl missing ↦ ground arith
  | inr (item, found) ↦
      let put = get-insert other id (record item { status = approved }) s.inner in
      ground (arith, put, eq_str_iff id other, eq_str_iff other id)
]
spent-step id (deny_id other) s = elim (Option-cases (get other s.inner)) [
  | inl missing ↦ ground arith
  | inr (item, found) ↦
      let put = get-insert other id (record item { status = denied }) s.inner in
      ground (arith, put, eq_str_iff id other, eq_str_iff other id)
]

-- The identifiers that are still to be given out are not in use.
pub record IsFresh (s : ApprovalStore) : Type 0 where
  pub unused : (n : ℕ) → s.next < n → n < u64_mod → get (format_id "approval-" n) s.inner ≡ none

-- Room for `n` more identifiers before the counter wraps.
abbrev pub HasRoom : ℕ → ApprovalStore → Type 0
HasRoom n s = s.next + n < u64_mod

HasRoom-run : (n : ℕ) (o : Operation) (s : ApprovalStore) → HasRoom (suc n) s → HasRoom n (run o s)
unfolding run create consume set
HasRoom-run n (create_for now path) s h = omega arith
HasRoom-run n (consume_for id path) s h = ground arith
HasRoom-run n (approve_id id) s h = ground arith
HasRoom-run n (deny_id id) s h = ground arith

-- Writing a record that is there uses no new key.
unused-insert :
    (id : Str) (item new : ApprovalRecord) (s : ApprovalStore) (n : ℕ)
    → get id s.inner ≡ some item
    → get (format_id "approval-" n) s.inner ≡ none
    → get (format_id "approval-" n) (insert id new s.inner) ≡ none
unused-insert id item new s n found unused =
    let key = format_id "approval-" n in
    ground (arith, get-insert id key new s.inner, eq_str_iff id key)

IsFresh-set :
    (id : Str) (status : ApprovalStatus) (s : ApprovalStore)
    → IsFresh s
    → IsFresh (set id status s).1
unfolding set
IsFresh-set id status s h = elim (Option-cases (get id s.inner)) [
  | inl missing ↦ record { unused = λ n p q. ground (arith, h.unused n) }
  | inr (item, found) ↦
      let new : ApprovalRecord = record item { status = status } in
      record { unused = λ n p q. ground (arith, h.unused n, unused-insert id item new s n) }
]

IsFresh-create :
    (now : ℕ) (path : Str) (s : ApprovalStore)
    → HasRoom 1 s
    → IsFresh s
    → IsFresh (create now path s).1
unfolding create
IsFresh-create now path s room h = record {
  unused = λ n p q.
      let last = format_id "approval-" (s.next + 1) in
      let other : s.next + 1 ≢ n = omega arith in
      let apart : last ≢ format_id "approval-" n =
        λ e. other (format_id_inj "approval-" (s.next + 1) n (omega arith) q e) in
      let old = h.unused n (omega arith) q in
      simp get-insert (ground (arith, eq_str_iff last (format_id "approval-" n)));
}

IsFresh-run : (o : Operation) (s : ApprovalStore) → HasRoom 1 s → IsFresh s → IsFresh (run o s)
unfolding run consume
IsFresh-run (create_for now path) s room h = IsFresh-create now path s room h
IsFresh-run (consume_for id path) s room h = elim (Option-cases (get id s.inner)) [
  | inl missing ↦ record { unused = λ n p q. ground (arith, h.unused n) }
  | inr (item, found) ↦
      let new : ApprovalRecord = record item { status = consumed } in
      record { unused = λ n p q. ground (arith, h.unused n, unused-insert id item new s n) }
]
IsFresh-run (approve_id id) s room h = IsFresh-set id approved s h
IsFresh-run (deny_id id) s room h = IsFresh-set id denied s h

granted-set :
    (id other : Str) (status : ApprovalStatus) (s : ApprovalStore)
    → status ≢ pending
    → (if eq_str id other then bit (is_ok (set other status s).0) else 0)
        + grantable (get id (set other status s).1.inner)
      ≤ grantable (get id s.inner)
unfolding set
granted-set id other status s done = elim (Option-cases (get other s.inner)) [
  | inl missing ↦ ground arith
  | inr (item, found) ↦
      let put = get-insert other id (record item { status = status }) s.inner in
      ground (arith, put, eq_str_iff id other, eq_str_iff other id)
]

granted-step :
    (id : Str) (o : Operation) (s : ApprovalStore)
    → HasRoom 1 s
    → IsFresh s
    → grants id o s + grantable (get id (run o s).inner) ≤ grantable (get id s.inner)
unfolding grants run
granted-step id (create_for now path) s room h =
    let last = format_id "approval-" (s.next + 1) in
    let old = h.unused (s.next + 1) (omega arith) (omega arith) in
    unfold create in simp get-insert (ground (arith, eq_str_iff last id))
granted-step id (consume_for other path) s room h = elim (Option-cases (get other s.inner)) [
  | inl missing ↦ unfold consume in ground arith
  | inr (item, found) ↦
      let put = get-insert other id (record item { status = consumed }) s.inner in
      unfold consume in ground (arith, put, eq_str_iff other id)
]
granted-step id (approve_id other) s room h = granted-set id other approved s (cc)
granted-step id (deny_id other) s room h =
    let kept = granted-set id other denied s (cc) in omega arith

times_spent_le :
    (id : Str) (os : List Operation) (s : ApprovalStore)
    → times_spent id os s ≤ times_granted id os s + spendable (get id s.inner)
unfolding times_spent times_granted
times_spent_le id [] s = omega arith
times_spent_le id (o ∷ os) s = omega (arith, spent-step id o s, times_spent_le id os (run o s))

times_granted_le :
    (id : Str) (os : List Operation) (s : ApprovalStore)
    → HasRoom (length os) s
    → IsFresh s
    → times_granted id os s ≤ grantable (get id s.inner)
unfolding times_granted
times_granted_le id [] s room h = omega arith
times_granted_le id (o ∷ os) s room h =
    let one : HasRoom 1 s = omega arith in
    let rest =
      times_granted_le id os (run o s) (HasRoom-run (length os) o s room) (IsFresh-run o s one h) in
    omega (arith, granted-step id o s one h)

IsFresh-new_store : IsFresh new_store
unfolding get
IsFresh-new_store = record { unused = λ n p q. refl }

-- In any sequence of fewer than 2^64 operations from the empty store, an identifier is consumed at
-- most as often as it was approved, and it is approved at most once.
pub spent_once :
    (id : Str) (os : List Operation)
    → length os < u64_mod
    → (times_spent id os new_store ≤ times_granted id os new_store)
      × (times_granted id os new_store ≤ 1)
unfolding get
spent_once id os h = (
  omega (arith, times_spent_le id os new_store),
  omega (arith, times_granted_le id os new_store (omega arith) IsFresh-new_store),
)
