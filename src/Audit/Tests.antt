-- ===== src/Audit/Tests.antt =====
-- The audit log after one request.
use tux_bridge.Prelude.{◌≡◌, ◌≤◌, [], ◌∷◌, codes, length, List}
use tux_bridge.Ring.{newest}
use tux_bridge.Audit.{AuditEvent, snapshot, max_audit_events}
use tux_bridge.Audit.Recent.{push_all, snapshot-push_all}

abbrev one_request : List AuditEvent
one_request =
    record {
      sequence = 1;
      timestamp_unix_ms = 5;
      request_id = codes "tb-0000000000000001";
      method = codes "GET";
      path = codes "/v1/doctor";
      status = 200;
      duration_ms = 3;
    }
    ∷ []

snapshot-push_all_example :
    (snapshot (push_all [] one_request) ≡ newest max_audit_events one_request)
    × (length (snapshot (push_all [] one_request)) ≤ max_audit_events)
snapshot-push_all_example = snapshot-push_all one_request
