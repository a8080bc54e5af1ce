-- ===== src/Hardening/Envelope.antt =====
-- What `protect_host` (src/hardening.rs) adds around every request.
use tux_bridge.Prelude.{
  ◌+◌, ◌-◌, ◌<◌, ◌≡◌, refl, ◌∙◌, subst, Str, codes, some, arith, eq_str, ◌==◌, Bool-cases, inl, inr,
}
use tux_bridge.Events
use tux_bridge.Prelude.Dict.{get, insert, get-insert}
use tux_bridge.State.{AppState, next_request_id}
use tux_bridge.Ids.{format_id, fetch_next}
use tux_bridge.Ids.Wrap.{format_id_wrap}
use tux_bridge.Http.{Request, Response}
use tux_bridge.Auth.{Handler}
use tux_bridge.Hardening.{Timing, announce, stamp, conclude, begin, protect_host, is_unaudited}

-- A handler that gives back every permit that it takes.
unfoldable pub KeepsPermits : Handler → Type 0
KeepsPermits next = (r : Request) (s : AppState) → (next r s).1.request_gate ≡ s.request_gate

announce-request_gate :
    (path : Str) (e : Events.Emission) (s : AppState)
    → (announce path e s).request_gate ≡ s.request_gate
unfolding announce
announce-request_gate path e s = elim (Bool-cases (eq_str path (codes "/v1/events/stream"))) [
  | inl t ↦ rw t refl
  | inr f ↦ rw f refl
]

conclude-request_gate :
    (time : Timing) (id : Str) (request : Request) (response : Response) (s : AppState)
    → (conclude time id request response s).1.request_gate ≡ s.request_gate + 1
unfolding conclude
conclude-request_gate time id request response s = elim (Bool-cases (is_unaudited request.path)) [
  | inl t ↦ announce-request_gate _ _ _ ∙ (rw t refl)
  | inr f ↦ announce-request_gate _ _ _ ∙ (rw f refl)
]

begin-request_gate :
    (time : Timing) (request : Request) (s : AppState)
    → (begin time request s).1.request_gate ≡ s.request_gate - 1
unfolding begin next_request_id
begin-request_gate time request s = announce-request_gate _ _ _

-- Around a handler that gives back the permits it takes, the number of free permits after a request
-- is the number before it, whether the request was refused as busy or handled.
pub protect_host-KeepsPermits :
    (time : Timing) (next : Handler) → KeepsPermits next → KeepsPermits (protect_host time next)
unfolding protect_host KeepsPermits
protect_host-KeepsPermits time next keeps request s = elim (Bool-cases (s.request_gate == 0)) [
  | inl t ↦ rw t refl
  | inr f ↦
      let (id, running) = begin time request s in
      let (response, s') = next request running in
      rw f (
        ground (
          arith,
          conclude-request_gate time (begin time request s).0 request
              (next request (begin time request s).1).0 (next request (begin time request s).1).1,
          keeps request (begin time request s).1,
          begin-request_gate time request s,
        ))
]

-- The headers that no handler can keep out of its response.
pub HasFixedHeaders : Str → Response → Type 0
HasFixedHeaders id response =
    (get (codes "x-tuxbridge-request-id") response.headers ≡ some id)
    × (get (codes "cache-control") response.headers ≡ some (codes "no-store"))
    × (get (codes "x-content-type-options") response.headers ≡ some (codes "nosniff"))

stamp-HasFixedHeaders : (id : Str) (response : Response) → HasFixedHeaders id (stamp id response)
unfolding stamp HasFixedHeaders eq_str
stamp-HasFixedHeaders id response =
    let nosniff = codes "x-content-type-options" in
    let cache = codes "cache-control" in
    let tag = codes "x-tuxbridge-request-id" in
    let tagged = insert tag id response.headers in
    let cached = insert cache (codes "no-store") tagged in
    (
      get-insert nosniff tag (codes "nosniff") cached
          ∙ get-insert cache tag (codes "no-store") tagged
          ∙ get-insert tag tag id response.headers,
      get-insert nosniff cache (codes "nosniff") cached
          ∙ get-insert cache cache (codes "no-store") tagged,
      get-insert nosniff nosniff (codes "nosniff") cached,
    )

begin-id :
    (time : Timing) (request : Request) (s : AppState)
    → (begin time request s).0 ≡ format_id "tb-" (s.request_sequence + 1)
unfolding begin next_request_id fetch_next
begin-id time request s = format_id_wrap "tb-" (s.request_sequence + 1)

-- Every request that gets a permit is answered with the handler's status, the id made from the next
-- sequence number, `no-store` and `nosniff`, whatever headers the handler set.
pub protect_host_headers :
    (time : Timing) (next : Handler) (request : Request) (s : AppState)
    → 0 < s.request_gate
    → ((protect_host time next request s).0.status
        ≡ (next request (begin time request s).1).0.status)
      × HasFixedHeaders
          (format_id "tb-" (s.request_sequence + 1))
          (protect_host time next request s).0
unfolding protect_host conclude stamp
protect_host_headers time next request s free = elim (Bool-cases (s.request_gate == 0)) [
  | inl t ↦ absurd (ground arith)
  | inr f ↦
      let inner : Response = (next request (begin time request s).1).0 in
      let id : Str = (begin time request s).0 in
      let fixed = stamp-HasFixedHeaders id inner in
      rw f (refl, subst (λ i. HasFixedHeaders i (stamp id inner)) (begin-id time request s) fixed)
]
