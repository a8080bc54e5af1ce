-- ===== src/Hardening/Tests.antt =====
-- One request through `protect_host`, and one identifier.
use tux_bridge.Prelude.{◌≡◌, refl, arith, codes, none, [], ◌∷◌}
use tux_bridge.Json.{null}
use tux_bridge.Config.{default_config}
use tux_bridge.Events.{new_hub}
use tux_bridge.Approvals.{new_store}
use tux_bridge.Sessions.{empty_store}
use tux_bridge.State.{AppState}
use tux_bridge.Http.{Request, payload}
use tux_bridge.Auth.{Handler}
use tux_bridge.Ids.{format_id}
use tux_bridge.Hardening.{Timing, protect_host, begin, sequence_of}
use tux_bridge.Hardening.Sequence.{sequence_of-format_id}
use tux_bridge.Hardening.Envelope.{
  KeepsPermits, HasFixedHeaders, protect_host-KeepsPermits, protect_host_headers,
}

sequence_of-format_id_example : sequence_of (format_id "tb-" 31) ≡ 31
sequence_of-format_id_example = sequence_of-format_id 31 (omega arith)

abbrev doctor : Request
doctor = record {
  method = codes "GET";
  path = codes "/v1/doctor";
  authorization = none;
  approval_id = none;
  body = null;
}

abbrev fresh : AppState
fresh = record {
  config = default_config;
  audit = [];
  events = new_hub;
  approvals = new_store;
  request_gate = 1;
  principals = [];
  role_policy = [];
  sessions = empty_store;
  request_sequence = 30;
}

abbrev timing : Timing
timing = record { started = 5; audited = 8; finished = 9; duration_ms = 3 }

abbrev answering : Handler
answering request s = (
  record {
    status = 200;
    headers = (codes "cache-control", codes "public") ∷ [];
    body = payload null;
  },
  s,
)

answering-KeepsPermits : KeepsPermits answering
unfolding KeepsPermits
answering-KeepsPermits request s = refl

permit_is_back : (protect_host timing answering doctor fresh).1.request_gate ≡ 1
unfolding KeepsPermits
permit_is_back = protect_host-KeepsPermits timing answering answering-KeepsPermits doctor fresh

protect_host-KeepsPermits_example : KeepsPermits (protect_host timing answering)
protect_host-KeepsPermits_example =
    protect_host-KeepsPermits timing answering answering-KeepsPermits

protect_host_headers_example :
    ((protect_host timing answering doctor fresh).0.status
      ≡ (answering doctor (begin timing doctor fresh).1).0.status)
    × HasFixedHeaders (format_id "tb-" 31) (protect_host timing answering doctor fresh).0
protect_host_headers_example = protect_host_headers timing answering doctor fresh (omega arith)
