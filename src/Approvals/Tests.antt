-- ===== src/Approvals/Tests.antt =====
-- The theorems on approvals at concrete stores.
use tux_bridge.Prelude.{
  ◌≡◌, ◌↔◌, ◌⊎◌, ◌≤◌, Str, codes, true, false, some, [], ◌∷◌, arith, if◌then◌else◌, eq_str, List,
}
use tux_bridge.Prelude.Dict.{get}
use tux_bridge.Approvals.{ApprovalStore, new_store, approved, consumed, create, consume, set}
use tux_bridge.Approvals.Once.{
  Operation, create_for, consume_for, approve_id, times_spent, times_granted, spent_once,
}
use tux_bridge.Approvals.Behaviour.{IsGranted, consume_lem}

abbrev first_id : Str
first_id = codes "approval-0000000000000001"

abbrev path : Str
path = codes "/v1/git/push"

-- One approval, then two attempts to use it.
abbrev twice : List Operation
twice =
    create_for 5 path
    ∷ approve_id first_id
    ∷ consume_for first_id path
    ∷ approve_id first_id
    ∷ consume_for first_id path
    ∷ []

spent_once_example :
    (times_spent first_id twice new_store ≤ times_granted first_id twice new_store)
    × (times_granted first_id twice new_store ≤ 1)
spent_once_example = spent_once first_id twice (omega arith)

abbrev granted : ApprovalStore
granted = (set first_id approved (create 5 path new_store).1).1

consume_lem_example :
    (((consume first_id path granted).0 ≡ true) ↔ IsGranted granted first_id path)
    × ((((consume first_id path granted).0 ≡ false) × ((consume first_id path granted).1 ≡ granted))
        ⊎ (((consume first_id path granted).0 ≡ true)
            × (g : IsGranted granted first_id path) × (get path
                  (consume first_id path granted).1.inner
                ≡ (if eq_str first_id path
                    then some (record g.item { status = consumed })
                    else get path granted.inner))))
consume_lem_example = consume_lem first_id path path granted
