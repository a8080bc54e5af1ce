-- ===== src/Auth/Gate.antt =====
-- Which requests the middleware of src/auth.rs lets through, and what it leaves behind.
use tux_bridge.Prelude.{
  ℕ, ◌≡◌, inl, inr, Str, codes, as_bytes, IsText, as_bytes-AreBytes, true, false, Option, none,
  some, List, [], ◌∷◌, any, All, Any, here, there, strip_prefix, Bool-cases, Option-cases, arith,
}
use tux_bridge.Approvals.{consume}
use tux_bridge.Approvals.Behaviour.{IsGranted, consume-true}
use tux_bridge.RolePolicy.{allows}
use tux_bridge.State.{PrincipalCredential, AppState}
use tux_bridge.Http.{HeaderValue, visible, opaque, to_str, Request}
use tux_bridge.Auth.{
  constant_time_eq, bearer, find_credential, is_restricted, needs_approval, pass, seek_approval,
  authorize, admit,
}
use tux_bridge.Auth.ConstantTime.{constant_time_eq_iff}

-- The texts that the program compares hold characters, as every Rust string does.
abbrev pub IsHeaderText : Option HeaderValue → Type 0
IsHeaderText none = Unit
IsHeaderText (some opaque) = Unit
IsHeaderText (some (visible s)) = IsText s

abbrev pub HaveTextKeys : List PrincipalCredential → Type 0
HaveTextKeys = All (λ p. IsText p.key)

-- The bearer token is the key of a principal, one of whose roles may call the route.
pub record IsAuthorized (request : Request) (state : AppState) : Type 0 where
  pub provided : Str
  pub sent : bearer request ≡ some provided
  pub credential : PrincipalCredential
  pub known : Any (λ p. p ≡ credential) state.principals
  pub same_key : as_bytes provided ≡ as_bytes credential.key
  pub permitted :
      any (λ role. allows state.role_policy role request.method request.path) credential.roles
      ≡ true

-- The approval rule: none is needed and the state is unchanged, or an approval for this very path
-- was granted, and consuming it is the only change.
pub data IsCleared (request : Request) (state state' : AppState) : Type 0 where
  open_path :
      needs_approval state request.path ≡ false → state' ≡ state → IsCleared request state state'
  approved :
      (id : Str)
      → needs_approval state request.path ≡ true
      → to_str request.approval_id ≡ some id
      → IsGranted state.approvals id request.path
      → state' ≡ record state { approvals = (consume id request.path state.approvals).1 }
      → IsCleared request state state'

IsText-strip_prefix : (p s t : Str) → strip_prefix p s ≡ some t → IsText s → IsText t
unfolding strip_prefix
IsText-strip_prefix [] s t e h = let same : s ≡ t = cc in rw (← same) h
IsText-strip_prefix (x ∷ p) [] t e h = cc
IsText-strip_prefix (x ∷ p) (c ∷ s) t e h = IsText-strip_prefix p s t (ground arith) h.1

IsText-bearer :
    (request : Request) (provided : Str)
    → IsHeaderText request.authorization
    → bearer request ≡ some provided
    → IsText provided
unfolding bearer
IsText-bearer request provided h e = go request.authorization h e
  where
    go :
        (header : Option HeaderValue)
        → IsHeaderText header
        → elim (to_str header) as (λ _. Option Str) [
          | none ↦ none
          | some value ↦ strip_prefix (codes "Bearer ") value
        ]
          ≡ some provided
        → IsText provided
    go none h e = cc
    go (some opaque) h e = cc
    go (some (visible s)) h e = IsText-strip_prefix (codes "Bearer ") s provided e h

find_credential_ok :
    (provided : Str) (ps : List PrincipalCredential) (credential : PrincipalCredential)
    → IsText provided
    → HaveTextKeys ps
    → find_credential provided ps ≡ some credential
    → Any (λ p. p ≡ credential) ps × (as_bytes provided ≡ as_bytes credential.key)
unfolding find_credential
find_credential_ok provided [] credential t k h = cc
find_credential_ok provided (p ∷ ps) credential t k h =
    elim (Bool-cases (constant_time_eq (as_bytes provided) (as_bytes p.key))) [
      | inl equal ↦
          let same : p ≡ credential = ground arith in
          let bytes =
            (constant_time_eq_iff _ _ (as_bytes-AreBytes provided t)
                (as_bytes-AreBytes p.key k.0)).0
              equal in
          (here same, rw (← same) bytes)
      | inr differ ↦
          let (known, bytes) = find_credential_ok provided ps credential t k.1 (ground arith) in
          (there known, bytes)
    ]

seek_approval_pass :
    (now : ℕ) (credential : PrincipalCredential) (request : Request) (state state' : AppState)
    → needs_approval state request.path ≡ true
    → seek_approval now credential request state ≡ (pass, state')
    → IsCleared request state state'
unfolding seek_approval
seek_approval_pass now credential request state state' needed h =
    elim (Option-cases (to_str request.approval_id)) [
      | inl missing ↦ absurd (ground arith)
      | inr (id, sent) ↦ elim (Bool-cases (consume id request.path state.approvals).0) [
        | inr failed ↦ absurd (ground arith)
        | inl done ↦
            approved id needed sent (consume-true id request.path state.approvals done)
              (ground arith)
      ]
    ]

module _ (now : ℕ) (credential : PrincipalCredential) (request : Request) (state : AppState) where
  authorize_pass :
      (state' : AppState)
      → authorize now credential request state ≡ (pass, state')
      → (any (λ role. allows state.role_policy role request.method request.path) credential.roles
          ≡ true)
        × (is_restricted state request.path ≡ false)
        × IsCleared request state state'
  unfolding authorize
  authorize_pass state' h = elim (Bool-cases (needs_approval state request.path)) [
    | inl needed ↦ (
      ground arith,
      ground arith,
      seek_approval_pass now credential request state state' needed (ground arith),
    )
    | inr free ↦ (ground arith, ground arith, open_path free (ground arith))
  ]

-- A request passes the gate only with the key of a known principal one of whose roles may call the
-- route, never to a command endpoint that the default profile closes, and, on a path that needs
-- approval, only by consuming a granted approval for that path, which is then the only change.
pub admit_pass :
    (now : ℕ) (request : Request) (state state' : AppState)
    → IsHeaderText request.authorization
    → HaveTextKeys state.principals
    → admit now request state ≡ (pass, state')
    → IsAuthorized request state
      × (is_restricted state request.path ≡ false)
      × IsCleared request state state'
unfolding admit
admit_pass now request state state' header keys h = elim (Option-cases (bearer request)) [
  | inl missing ↦ absurd (ground arith)
  | inr (provided, sent) ↦ elim (Option-cases (find_credential provided state.principals)) [
    | inl unknown ↦ absurd (ground arith)
    | inr (credential, found) ↦
        let text = IsText-bearer request provided header sent in
        let (known, bytes) =
          find_credential_ok provided state.principals credential text keys found in
        let (permitted, unrestricted, cleared) =
          authorize_pass now credential request state state' (ground arith) in
        (
          record {
            provided = provided;
            sent = sent;
            credential = credential;
            known = known;
            same_key = bytes;
            permitted = permitted;
          },
          unrestricted,
          cleared,
        )
  ]
]
