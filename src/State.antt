-- ===== src/State.antt =====
-- src/state.rs: the shared state of the server. `jobs` is the store of src/command.rs, kept
-- apart: the handlers of src/command.rs are not stated over this record.
use tux_bridge.Prelude.{ℕ, Str, List, map, [], ◌∷◌}
use tux_bridge.Prelude.Dict.{Dict}
use tux_bridge.Error.{Result, ok, map_err, ◌>>=◌, text}
use tux_bridge.Ids.{format_id, fetch_next}
use tux_bridge.Json.{Json}
use tux_bridge.Config.{AuthRole, Config, LoadedPrincipal}
use tux_bridge.Config.Validate.{ConfigError, invalid, Environment, auth_principals}
use tux_bridge.Audit.{AuditStore}
use tux_bridge.Events.{EventHub, new_hub}
use tux_bridge.Approvals.{ApprovalStore, new_store}
use tux_bridge.Sessions.{SessionStore, empty_store}
use tux_bridge.RolePolicy.{RouteRule, ProfileSpec, embedded}

pub record PrincipalCredential : Type 0 where
  pub name : Str
  pub key : Str
  pub roles : List AuthRole

-- `request_gate` counts the permits that are free.
pub record AppState : Type 0 where
  pub config : Config
  pub audit : AuditStore
  pub events : EventHub
  pub sessions : SessionStore
  pub approvals : ApprovalStore
  pub request_gate : ℕ
  pub principals : List PrincipalCredential
  pub role_policy : List RouteRule
  pub request_sequence : ℕ

abbrev credential : LoadedPrincipal → PrincipalCredential
credential p = record { name = p.name; key = p.key; roles = p.roles }

unfoldable pub new : Environment → Json → Dict ProfileSpec → Config → Result AppState ConfigError
new env canonical profiles config = do
  principals ← auth_principals env config
  role_policy ←
      map_err (λ e. invalid (text "embedded role policy is invalid: " ∷ e))
        (embedded canonical profiles)
  ok (record {
    config = config;
    audit = [];
    events = new_hub;
    sessions = empty_store;
    approvals = new_store;
    request_gate = config.limits.max_in_flight;
    principals = map credential principals;
    role_policy = role_policy;
    request_sequence = 0;
  })

unfoldable pub next_request_id : AppState → Str × AppState
unfolding fetch_next
next_request_id s =
    let (sequence, next) = fetch_next s.request_sequence in
    (format_id "tb-" sequence, record s { request_sequence = next })
