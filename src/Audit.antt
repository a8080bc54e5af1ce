-- ===== src/Audit.antt =====
-- src/audit.rs: the log of finished requests, bounded like the event ring.
pub mod Recent
mod Tests
use tux_bridge.Prelude.{ℕ, Str, List}
use tux_bridge.Ring.{push_bounded}

abbrev pub max_audit_events : ℕ
max_audit_events = 1024

pub record AuditEvent : Type 0 where
  pub sequence : ℕ
  pub timestamp_unix_ms : ℕ
  pub request_id : Str
  pub method : Str
  pub path : Str
  pub status : ℕ
  pub duration_ms : ℕ

abbrev pub AuditStore : Type 0
AuditStore = List AuditEvent

unfoldable pub push : AuditStore → AuditEvent → AuditStore
push events event = push_bounded max_audit_events events event

-- `snapshot`, and `list_events`
pub snapshot : AuditStore → List AuditEvent
snapshot events = events
