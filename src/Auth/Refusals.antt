-- ===== src/Auth/Refusals.antt =====
-- What a request that the middleware of src/auth.rs answers itself leaves behind.
use tux_bridge.Prelude.{
  ℕ, ◌+◌, ◌%◌, ◌≡◌, ◌⊎◌, inl, inr, refl, ap, Str, false, some, [], ◌∷◌, any, if◌then◌else◌, eq_str,
  Bool-cases, Option-cases, arith, length, length-append,
}
use tux_bridge.Prelude.Dict.{get, get-insert}
use tux_bridge.Approvals.{pending, create}
use tux_bridge.Approvals.Behaviour.{consume-false}
use tux_bridge.Events.{emit}
use tux_bridge.Ids.{format_id, u64_mod}
use tux_bridge.Ids.Wrap.{format_id_wrap}
use tux_bridge.RolePolicy.{allows}
use tux_bridge.State.{PrincipalCredential, AppState}
use tux_bridge.Http.{Request, Response, to_str}
use tux_bridge.Auth.{
  bearer, find_credential, is_restricted, needs_approval, answer, spend, ask, seek_approval,
  authorize, admit, unauthorized, role_forbidden, profile_restriction, approval_response,
}

-- The answers that ask for no approval.
abbrev pub IsPlainRefusal : Response → Type 0
IsPlainRefusal r = (r ≡ unauthorized) ⊎ ((r ≡ role_forbidden) ⊎ (r ≡ profile_restriction))

-- An approval was asked for: one record is added, pending and for the request's path, under the
-- next identifier, which the answer names; every other record is the same; one event is emitted.
pub record HasAsked (now : ℕ) (request : Request) (state state' : AppState) (r : Response)
    : Type 0 where
  pub id : Str
  pub next_id : id ≡ format_id "approval-" (state.approvals.next + 1)
  pub answered : r ≡ approval_response id request.path
  pub records :
      (j : Str)
      → get j state'.approvals.inner ≡ (
          if eq_str id j
          then some
              (record { id = id; path = request.path; status = pending; created_at_unix_ms = now })
          else get j state.approvals.inner)
  pub events : length state'.events.tx ≡ length state.events.tx + 1
  pub kept : record state' { approvals = state.approvals; events = state.events } ≡ state

ask-HasAsked :
    (now : ℕ) (credential : PrincipalCredential) (request : Request) (state : AppState)
    → HasAsked now request state (ask now credential request state).1 (
        approval_response
          (format_id "approval-" ((state.approvals.next + 1) % u64_mod))
          request.path)
unfolding ask create emit
ask-HasAsked now credential request state =
    let key = format_id "approval-" ((state.approvals.next + 1) % u64_mod) in
    record {
      id = key;
      next_id = format_id_wrap "approval-" (state.approvals.next + 1);
      answered = refl;
      records = λ j. get-insert key j _ state.approvals.inner;
      events = length-append state.events.tx (_ ∷ []);
      kept = refl;
    }

answer_inj : {r q : Response} → answer r ≡ answer q → r ≡ q
answer_inj h = cc

ask_answer :
    (now : ℕ) (credential : PrincipalCredential) (request : Request) (state state' : AppState)
    (r : Response)
    → ask now credential request state ≡ (answer r, state')
    → HasAsked now request state state' r
ask_answer now credential request state state' r h =
    let key = format_id "approval-" ((state.approvals.next + 1) % u64_mod) in
    let same_state : (ask now credential request state).1 ≡ state' = ap (λ p. p.1) h in
    let same_answer : approval_response key request.path ≡ r =
      unfold ask create in answer_inj (ap (λ p. p.0) h) in
    rw (← same_state, ← same_answer) (ask-HasAsked now credential request state)

spend-false :
    (request : Request) (state : AppState)
    → (spend request state).0 ≡ false
    → (spend request state).1 ≡ state
unfolding spend
spend-false request state h = elim (Option-cases (to_str request.approval_id)) [
  | inl missing ↦ ground arith
  | inr (id, sent) ↦ ground (arith, consume-false id request.path state.approvals)
]

module _ (now : ℕ) (credential : PrincipalCredential) (request : Request) (state state' : AppState)
    (r : Response) where
  authorize_answer :
      authorize now credential request state ≡ (answer r, state')
      → (IsPlainRefusal r × (state' ≡ state))
        ⊎ (ask now credential request state ≡ (answer r, state'))
  unfolding authorize seek_approval
  authorize_answer h =
      elim (Bool-cases (
        any (λ role. allows state.role_policy role request.method request.path) credential.roles)) [
          | inr forbidden ↦ inl (inr (inl (ground arith)), ground arith)
          | inl permitted ↦ elim (Bool-cases (is_restricted state request.path)) [
            | inl closed ↦ inl (inr (inr (ground arith)), ground arith)
            | inr open_route ↦ elim (Bool-cases (needs_approval state request.path)) [
              | inr free ↦ absurd (ground arith)
              | inl needed ↦ elim (Bool-cases (spend request state).0) [
                | inl spent ↦ absurd (ground arith)
                | inr unspent ↦ inr (ground (arith, spend-false request state unspent))
              ]
            ]
          ]
        ]

-- Every request that the gate answers itself is either refused with 401 or 403, and then the whole
-- state is unchanged: no approval is created or consumed and no event is emitted. Or it is asked for
-- an approval with 428: exactly one pending record for its path and one event are added.
pub admit_answer :
    (now : ℕ) (request : Request) (state state' : AppState) (r : Response)
    → admit now request state ≡ (answer r, state')
    → (IsPlainRefusal r × (state' ≡ state)) ⊎ HasAsked now request state state' r
unfolding admit
admit_answer now request state state' r h = elim (Option-cases (bearer request)) [
  | inl missing ↦ inl (inl (ground arith), ground arith)
  | inr (provided, sent) ↦ elim (Option-cases (find_credential provided state.principals)) [
    | inl unknown ↦ inl (inl (ground arith), ground arith)
    | inr (credential, found) ↦
        elim (authorize_answer now credential request state state' r (ground arith)) [
          | inl refused ↦ inl refused
          | inr asked ↦ inr (ask_answer now credential request state state' r asked)
        ]
  ]
]
