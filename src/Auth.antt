-- ===== src/Auth.antt =====
-- src/auth.rs: the middleware in front of every protected route.
pub mod ConstantTime
pub mod Gate
pub mod Refusals
mod Tests
use Prim.Native.Nat.{bit_or, bit_xor}
use tux_bridge.Prelude.{
  ℕ, String, Str, codes, Bytes, as_bytes, Bool, true, false, not, ◌&&◌, ◌||◌, Option, none, some,
  List, [], ◌∷◌, any, find, length, ◌==◌, if◌then◌else◌, eq_str, starts_with, strip_prefix,
}
use tux_bridge.Error.{Message, text, shown}
use tux_bridge.Security.{SecurityProfile, default}
use tux_bridge.Approvals.{ApprovalRecord, create, consume}
use tux_bridge.Events
use tux_bridge.Events.{emit}
use tux_bridge.RolePolicy.{allows}
use tux_bridge.State.{PrincipalCredential, AppState}
use tux_bridge.Http.{HeaderValue, to_str, Request, Response, error, approval_required}

-- The fold of `constant_time_eq`, over the pairs of bytes.
unfoldable pub difference : ℕ → Bytes → Bytes → ℕ
difference diff [] right = diff
difference diff (a ∷ left) [] = diff
difference diff (a ∷ left) (b ∷ right) = difference (bit_or diff (bit_xor a b)) left right

unfoldable pub constant_time_eq : Bytes → Bytes → Bool
constant_time_eq left right =
    if not (length left == length right) then false else difference 0 left right == 0

abbrev refusal : ℕ → String → String → Response
refusal status code message = record { status = status; headers = []; body = error code message }

unfoldable pub unauthorized : Response
unauthorized = refusal 401 "unauthorized" "missing or invalid bearer token"

unfoldable pub role_forbidden : Response
role_forbidden =
    refusal 403 "role_forbidden" "authenticated principal is not authorized for this operation"

unfoldable pub profile_restriction : Response
profile_restriction =
    refusal 403 "security_profile_restriction"
      "default profile permits only constrained raw commands; switch to loose or i_want_to_nuke_my_server for unrestricted argv/background execution"

unfoldable pub approval_response : Str → Str → Response
approval_response id path = record { status = 428; headers = []; body = approval_required id path }

-- `value.strip_prefix("Bearer ")` of the authorization header.
unfoldable pub bearer : Request → Option Str
unfolding to_str
bearer request = elim (to_str request.authorization) [
  | none ↦ none
  | some value ↦ strip_prefix (codes "Bearer ") value
]

unfoldable pub find_credential : Str → List PrincipalCredential → Option PrincipalCredential
find_credential provided principals =
    find (λ p. constant_time_eq (as_bytes provided) (as_bytes p.key)) principals

abbrev is_default : SecurityProfile → Bool
is_default default = true
is_default _ = false

-- The commands that the default profile closes.
abbrev pub is_restricted : AppState → Str → Bool
is_restricted state path =
    is_default state.config.security.profile
    && (eq_str path (codes "/v1/commands/run") || eq_str path (codes "/v1/commands/start"))

abbrev pub needs_approval : AppState → Str → Bool
needs_approval state path =
    any (λ required. eq_str required path) state.config.approvals.required_paths
    && not (starts_with (codes "/v1/approvals/") path)

-- What the middleware decides before `next.run`: the request passes, or is answered here.
pub data Verdict : Type 0 where
  pass : Verdict
  answer : Response → Verdict

-- `approved`, with the store that `consume` leaves.
unfoldable pub spend : Request → AppState → Bool × AppState
unfolding to_str
spend request state = elim (to_str request.approval_id) [
  | none ↦ (false, state)
  | some id ↦
      let (approved, approvals) = consume id request.path state.approvals in
      (approved, record state { approvals = approvals })
]

-- A pending approval is created and announced.
unfoldable pub ask : ℕ → PrincipalCredential → Request → AppState → Verdict × AppState
ask now credential request state =
    let (item, approvals) = create now request.path state.approvals in
    let events = emit state.events (record {
      now = now;
      kind = "approval.required";
      workspace = none;
      summary = text "approval required for " ∷ shown request.path ∷ [];
      value =
          ("approval_id", Events.text item.id)
          ∷ ("path", Events.text request.path)
          ∷ ("principal", Events.text credential.name)
          ∷ [];
    }) in
    (
      answer (approval_response item.id request.path),
      record state { approvals = approvals; events = events },
    )

unfoldable pub seek_approval : ℕ → PrincipalCredential → Request → AppState → Verdict × AppState
unfolding ask spend
seek_approval now credential request state =
    let (approved, state') = spend request state in
    if approved then (pass, state') else ask now credential request state'

-- From the credential on.
unfoldable pub authorize : ℕ → PrincipalCredential → Request → AppState → Verdict × AppState
authorize now credential request state =
    if not
      (any (λ role. allows state.role_policy role request.method request.path) credential.roles)
    then (answer role_forbidden, state)
    else if is_restricted state request.path
    then (answer profile_restriction, state)
    else if needs_approval state request.path
    then seek_approval now credential request state
    else (pass, state)

unfoldable pub admit : ℕ → Request → AppState → Verdict × AppState
admit now request state = elim (bearer request) [
  | none ↦ (answer unauthorized, state)
  | some provided ↦ elim (find_credential provided state.principals) [
    | none ↦ (answer unauthorized, state)
    | some credential ↦ authorize now credential request state
  ]
]

abbrev pub Handler : Type 0
Handler = Request → AppState → Response × AppState

-- The middleware: `next` is the rest of the service.
unfoldable pub require_api_key : ℕ → Handler → Handler
require_api_key now next request state =
    let (verdict, state') = admit now request state in
    elim verdict [ answer response ↦ (response, state') | pass ↦ next request state' ]
