-- ===== src/Auth/Tests.antt =====
-- Runs of the middleware, and the theorems of Gate, Refusals and ConstantTime at them.
use tux_bridge.Prelude.{
  ◌≡◌, ◌↔◌, ◌⊎◌, refl, Str, codes, as_bytes, true, false, some, [], ◌∷◌, arith, texts, all→IsText,
}
use tux_bridge.Json.{null}
use tux_bridge.Config.{Config, default_config, developer}
use tux_bridge.Events.{new_hub, emit}
use tux_bridge.Approvals.{create, consume, set, approved, new_store}
use tux_bridge.Ids.{format_id}
use tux_bridge.Config.Validate.{same_role}
use tux_bridge.RolePolicy.{allows, segments, route_matches}
use tux_bridge.Sessions.{empty_store}
use tux_bridge.State.{AppState}
use tux_bridge.Http.{visible, Request}
use tux_bridge.Auth.{
  is_restricted, pass, answer, admit, constant_time_eq, approval_response, unauthorized, bearer,
  find_credential, authorize, seek_approval, difference,
}
use tux_bridge.Auth.ConstantTime.{constant_time_eq_iff}
use tux_bridge.Auth.Gate.{IsAuthorized, IsCleared, admit_pass}
use tux_bridge.Auth.Refusals.{IsPlainRefusal, HasAsked, admit_answer}

gate : Unit {0}
unfolding admit bearer find_credential authorize seek_approval allows emit create consume set
    constant_time_eq texts difference same_role route_matches segments format_id approval_response
gate = tt

abbrev push_path : Str
push_path = codes "/v1/git/push"

abbrev guarded_config : Config
guarded_config = record default_config { approvals = record { required_paths = push_path ∷ [] } }

abbrev state : AppState
state = record {
  config = guarded_config;
  audit = [];
  events = new_hub;
  approvals = new_store;
  request_gate = 32;
  principals = record { name = codes "dev"; key = codes "k3y"; roles = developer ∷ [] } ∷ [];
  role_policy = record { method = codes "post"; template = push_path; roles = developer ∷ [] } ∷ [];
  sessions = empty_store;
  request_sequence = 0;
}

abbrev first_id : Str
first_id = codes "approval-0000000000000001"

abbrev ready : AppState
ready = record state { approvals = (set first_id approved (create 7 push_path new_store).1).1 }

abbrev push_request : Request
push_request = record {
  method = codes "POST";
  path = push_path;
  authorization = some (visible (codes "Bearer k3y"));
  approval_id = some (visible first_id);
  body = null;
}

abbrev spent : AppState
spent = (admit 9 push_request ready).1

passes : admit 9 push_request ready ≡ (pass, spent)
unfolding gate
passes = refl

asks :
    (admit 9 push_request spent).0
    ≡ answer (approval_response (codes "approval-0000000000000002") push_path)
unfolding gate
asks = refl

wrong_key :
    admit 9 (record push_request { authorization = some (visible (codes "Bearer k3z")) }) ready
    ≡ (answer unauthorized, ready)
unfolding gate
wrong_key = refl

admit_pass_example :
    IsAuthorized push_request ready
    × (is_restricted ready push_path ≡ false)
    × IsCleared push_request ready spent
admit_pass_example =
    admit_pass 9 push_request ready spent (all→IsText (codes "Bearer k3y") refl)
      (all→IsText (codes "k3y") refl, tt) passes

admit_answer_example :
    (IsPlainRefusal unauthorized × (ready ≡ ready))
    ⊎ HasAsked 9
        (record push_request { authorization = some (visible (codes "Bearer k3z")) })
        ready
        ready
        unauthorized
admit_answer_example =
    admit_answer 9 (record push_request { authorization = some (visible (codes "Bearer k3z")) })
      ready ready unauthorized wrong_key

constant_time_eq_iff_example :
    (constant_time_eq (as_bytes (codes "secret")) (as_bytes (codes "Secret")) ≡ true)
    ↔ (as_bytes (codes "secret") ≡ as_bytes (codes "Secret"))
unfolding as_bytes
constant_time_eq_iff_example =
    constant_time_eq_iff (as_bytes (codes "secret")) (as_bytes (codes "Secret")) (omega arith)
      (omega arith)
