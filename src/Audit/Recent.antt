-- ===== src/Audit/Recent.antt =====
-- What the audit log shows after any number of requests.
use tux_bridge.Prelude.{
  ◌≤◌, ◌≡◌, sym, ap, ◌∙◌, List, [], ◌∷◌, ◌++◌, append_assoc, append-nil, length,
}
use tux_bridge.Ring.{newest, push_bounded-newest, length-newest}
use tux_bridge.Audit.{AuditEvent, AuditStore, push, snapshot, max_audit_events}

unfoldable pub push_all : AuditStore → List AuditEvent → AuditStore
push_all events [] = events
push_all events (e ∷ es) = push_all (push events e) es

push_all-newest :
    (past es : List AuditEvent)
    → push_all (newest max_audit_events past) es ≡ newest max_audit_events (past ++ es)
unfolding push_all push
push_all-newest past [] = ap (newest max_audit_events) (sym (append-nil past))
push_all-newest past (e ∷ es) =
    ap (λ s. push_all s es) (push_bounded-newest max_audit_events past e)
    ∙ push_all-newest (past ++ e ∷ []) es
    ∙ ap (newest max_audit_events) (append_assoc past (e ∷ []) es)

-- Starting empty, the audit log shows the newest 1024 of all events pushed, in order, and no more.
pub snapshot-push_all :
    (es : List AuditEvent)
    → (snapshot (push_all [] es) ≡ newest max_audit_events es)
      × (length (snapshot (push_all [] es)) ≤ max_audit_events)
unfolding snapshot
snapshot-push_all es =
    let same = push_all-newest [] es in (same, rw same (length-newest max_audit_events es))
