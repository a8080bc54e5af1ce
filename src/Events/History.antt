-- ===== src/Events/History.antt =====
-- What the event ring holds after any number of events.
use tux_bridge.Prelude.{ℕ, ◌+◌, ◌≡◌, List, [], ◌∷◌}
use tux_bridge.Ring.{newest}
use tux_bridge.Events.{AgentEvent, EventHub, Emission, emit, event_of, event_ring}

unfoldable pub emit_all : EventHub → List Emission → EventHub
emit_all hub [] = hub
emit_all hub (e ∷ es) = emit_all (emit hub e) es

abbrev IsRecent : EventHub → Type 0
IsRecent hub = hub.ring ≡ newest event_ring hub.tx

-- Sequence numbers `n + 1`, `n + 2`, … in order.
pub numbered : ℕ → List Emission → List AgentEvent
numbered n [] = []
numbered n (e ∷ es) = event_of (n + 1) e ∷ numbered (n + 1) es
