-- ===== src/Events.antt =====
-- src/events.rs: the event hub. `tx` holds what was handed to the broadcast channel, oldest first;
-- the channel itself (tokio) and the SSE stream made from it are not modelled.
pub mod History
mod Tests
use tux_bridge.Prelude.{ℕ, ◌+◌, String, Str, List, [], ◌∷◌, ◌++◌, Option, none, some}
use tux_bridge.Error.{Message}
use tux_bridge.Ids.{fetch_next}
use tux_bridge.Ring.{push_bounded}

abbrev pub event_ring : ℕ
event_ring = 2048

-- The values that `json!` puts into an event.
pub data Datum : Type 0 where
  text : Str → Datum
  texts : List Str → Datum
  number : ℕ → Datum
  null : Datum

abbrev pub Data : Type 0
Data = List (String × Datum)

pub record AgentEvent : Type 0 where
  pub sequence : ℕ
  pub timestamp_unix_ms : ℕ
  pub kind : String
  pub workspace : Option Str
  pub summary : Message
  pub value : Data

pub record EventHub : Type 0 where
  pub tx : List AgentEvent
  pub ring : List AgentEvent
  pub next : ℕ

abbrev pub new_hub : EventHub
new_hub = record { tx = []; ring = []; next = 0 }

-- The arguments of `emit`, with the clock's reading.
pub record Emission : Type 0 where
  pub now : ℕ
  pub kind : String
  pub workspace : Option Str
  pub summary : Message
  pub value : Data

unfoldable pub event_of : ℕ → Emission → AgentEvent
event_of sequence e = record {
  sequence = sequence;
  timestamp_unix_ms = e.now;
  kind = e.kind;
  workspace = e.workspace;
  summary = e.summary;
  value = e.value;
}

unfoldable pub emit : EventHub → Emission → EventHub
unfolding fetch_next event_of
emit hub e =
    let (sequence, next) = fetch_next hub.next in
    let event = event_of sequence e in
    record { tx = hub.tx ++ event ∷ []; ring = push_bounded event_ring hub.ring event; next = next }

-- `list_events`
pub snapshot : EventHub → List AgentEvent
snapshot hub = hub.ring
