-- ===== src/Hardening.antt =====
-- src/hardening.rs: the outermost middleware: the limit on concurrent requests, request ids, fixed
-- headers, the audit log and the two events around a request.
pub mod Sequence
pub mod Envelope
mod Tests
use tux_bridge.Prelude.{
  ℕ, zero, ◌+◌, ◌-◌, ◌*◌, ◌^◌, String, Str, codes, Bool, true, false, not, ◌&&◌, ◌||◌, Option, none,
  some, List, [], ◌∷◌, ltb, leb, ◌==◌, if◌then◌else◌, eq_str, strip_prefix, or_else, suc, length,
}
use tux_bridge.Prelude.Dict.{Dict, insert}
use tux_bridge.Error.{Message, text, shown, number}
use tux_bridge.Ids.{u64_mod}
use tux_bridge.Events
use tux_bridge.Events.{emit, EventHub}
use tux_bridge.Audit.{push, AuditEvent}
use tux_bridge.State.{AppState, next_request_id}
use tux_bridge.Http.{Request, Response, error}
use tux_bridge.Auth.{Handler}

-- The value of a hexadecimal digit of either case.
unfoldable pub digit_value : ℕ → Option ℕ
digit_value c =
    if leb b'0' c && leb c b'9'
    then some (c - b'0')
    else if leb b'a' c && leb c b'f'
    then some (c - b'a' + 10)
    else if leb b'A' c && leb c b'F'
    then some (c - b'A' + 10)
    else none

-- One more digit; `none` also when the value passes `u64`.
unfoldable pub append_digit : Option ℕ → ℕ → Option ℕ
append_digit none d = none
append_digit (some v) d = if ltb (v * 16 + d) u64_mod then some (v * 16 + d) else none

unfoldable pub read_digits : Option ℕ → Str → Option ℕ
unfolding append_digit
read_digits v [] = v
read_digits v (c ∷ s) = elim (digit_value c) [
  | none ↦ none
  | some d ↦ read_digits (append_digit v d) s
]

-- `u64::from_str_radix(s, 16)`: an optional `+`, then at least one digit.
unfoldable pub from_hex : Str → Option ℕ
unfolding read_digits
from_hex [] = none
from_hex (c ∷ s) =
    if c == b'+'
    then elim s [ [] ↦ none | d ∷ r ↦ read_digits (some 0) (d ∷ r) ]
    else read_digits (some 0) (c ∷ s)

-- `trim_start_matches("tb-")` takes every copy of the prefix off; each round shortens the text.
unfoldable pub trim_tag : ℕ → Str → Str
trim_tag zero s = s
trim_tag (suc n) s = elim (strip_prefix (codes "tb-") s) [ none ↦ s | some r ↦ trim_tag n r ]

unfoldable pub sequence_of : Str → ℕ
unfolding trim_tag from_hex
sequence_of request_id = or_else (from_hex (trim_tag (length request_id) request_id)) 0

unfoldable pub busy : Response
busy = record {
  status = 429;
  headers = [];
  body = error "too_many_requests" "TuxBridge is at its configured concurrent-request limit";
}

abbrev pub is_stream : Str → Bool
is_stream path = eq_str path (codes "/v1/events/stream")

-- The paths that the audit log leaves out.
abbrev pub is_unaudited : Str → Bool
is_unaudited path =
    eq_str path (codes "/v1/audit/events")
    || eq_str path (codes "/v1/events")
    || is_stream path
    || eq_str path (codes "/ui")

-- The clock's readings during one request.
pub record Timing : Type 0 where
  pub started : ℕ
  pub audited : ℕ
  pub finished : ℕ
  pub duration_ms : ℕ

-- An event of this request, unless it is for the event stream.
unfoldable pub announce : Str → Events.Emission → AppState → AppState
announce path e state =
    if is_stream path then state else record state { events = emit state.events e }

unfoldable pub started : Timing → Str → Request → Events.Emission
started time id request = record {
  now = time.started;
  kind = "request.started";
  workspace = none;
  summary = shown request.method ∷ text " " ∷ shown request.path ∷ [];
  value =
      ("request_id", Events.text id)
      ∷ ("method", Events.text request.method)
      ∷ ("path", Events.text request.path)
      ∷ [];
}

unfoldable pub finished : Timing → Str → Request → ℕ → Events.Emission
finished time id request status = record {
  now = time.finished;
  kind = "request.finished";
  workspace = none;
  summary = shown request.method ∷ text " " ∷ shown request.path ∷ text " -> " ∷ number status ∷ [];
  value =
      ("request_id", Events.text id)
      ∷ ("method", Events.text request.method)
      ∷ ("path", Events.text request.path)
      ∷ ("status", Events.number status)
      ∷ ("duration_ms", Events.number time.duration_ms)
      ∷ [];
}

unfoldable pub audit_event : Timing → Str → Request → ℕ → AuditEvent
unfolding sequence_of
audit_event time id request status = record {
  sequence = sequence_of id;
  timestamp_unix_ms = time.audited;
  request_id = id;
  method = request.method;
  path = request.path;
  status = status;
  duration_ms = time.duration_ms;
}

-- `headers_mut().insert(…)` three times. The id is ASCII, so it is always a header value.
unfoldable pub stamp : Str → Response → Response
stamp id response = record response {
  headers = insert (codes "x-content-type-options") (codes "nosniff") (
      insert (codes "cache-control") (codes "no-store")
        (insert (codes "x-tuxbridge-request-id") id response.headers));
}

-- What follows `next.run`: the permit is dropped, the headers set, the request logged.
unfoldable pub conclude : Timing → Str → Request → Response → AppState → Response × AppState
unfolding announce stamp audit_event finished
conclude time id request response state =
    let released = record state { request_gate = state.request_gate + 1 } in
    let stamped = stamp id response in
    let audited = if is_unaudited request.path then released else record released {
      audit = push released.audit (audit_event time id request stamped.status);
    } in
    (stamped, announce request.path (finished time id request stamped.status) audited)

-- What precedes `next.run`: a permit is taken, the id drawn, the start announced.
unfoldable pub begin : Timing → Request → AppState → Str × AppState
unfolding announce started next_request_id
begin time request state =
    let held = record state { request_gate = state.request_gate - 1 } in
    let (id, numbered) = next_request_id held in
    (id, announce request.path (started time id request) numbered)

unfoldable pub protect_host : Timing → Handler → Handler
unfolding begin conclude
protect_host time next request state =
    if state.request_gate == 0
    then (busy, state)
    else (let (id, running) = begin time request state in
        let (response, state') = next request running in conclude time id request response state')
