-- ===== src/Sessions.antt =====
-- src/sessions.rs: coding sessions, which keep the content that files had before an agent changed
-- them. Each operation below holds the store's lock from its first read to its last write, so it is
-- one step from store to store; the handlers are chains of such steps.
pub mod Files
pub mod Handlers
pub mod Steps
pub mod Invariant
pub mod Writes
pub mod Sound
pub mod Rollback
mod Tests
use tux_bridge.Prelude.{
  ℕ, ◌+◌, Str, Bytes, Bool, true, false, not, Option, none, some, List, [], ◌∷◌, length, ltb, leb,
  if◌then◌else◌, eq_str, saturating_add,
}
use tux_bridge.Prelude.Dict.{Dict, get, insert, sum_by}
use tux_bridge.Error.{
  ApiResult, Result, ok, err, ◌>>=◌, ◌>>◌, refuse_if, ok_or, not_found, conflict, forbidden, says,
  text, quoted, number, ApiError,
}
use tux_bridge.Ids.{format_id, fetch_next}

abbrev pub max_sessions : ℕ
max_sessions = 64

abbrev pub max_files_per_session : ℕ
max_files_per_session = 128

abbrev pub max_snapshot_bytes : ℕ
max_snapshot_bytes = 33554432

pub data SessionStatus : Type 0 where
  active finalized rolled_back : SessionStatus

-- `matches!(s.status, SessionStatus::Active)`
abbrev pub is_active : SessionStatus → Bool
is_active active = true
is_active _ = false

pub record FileSnapshot : Type 0 where
  pub before : Bytes
  pub before_sha256 : Str
  pub after_sha256 : Str

pub record SessionRecord : Type 0 where
  pub id : Str
  pub workspace : Str
  pub title : Str
  pub created_at_unix_ms : ℕ
  pub status : SessionStatus
  pub files : Dict FileSnapshot
  pub bytes : ℕ

pub record SessionStore : Type 0 where
  pub inner : Dict SessionRecord
  pub next : ℕ

abbrev pub empty_store : SessionStore
empty_store = record { inner = []; next = 0 }

-- How many sessions are active.
abbrev pub active_one : SessionRecord → ℕ
active_one s = if is_active s.status then 1 else 0

abbrev pub active_count : Dict SessionRecord → ℕ
active_count sessions = sum_by active_one sessions

unfoldable pub new_session : Str → Str → Str → ℕ → SessionRecord
new_session id workspace title now = record {
  id = id;
  workspace = workspace;
  title = title;
  created_at_unix_ms = now;
  status = active;
  files = [];
  bytes = 0;
}

unfoldable pub create : ℕ → Str → Str → SessionStore → ApiResult Str × SessionStore
unfolding sum_by new_session fetch_next
create now workspace title s =
    let (sequence, next) = fetch_next s.next in
    let id = format_id "edit-" sequence in
    if leb max_sessions (active_count s.inner)
    then (
      err (
          conflict
            (text "active coding session limit of " ∷ number max_sessions ∷ text " reached" ∷ [])),
      s,
    )
    else (
      ok id,
      record { inner = insert id (new_session id workspace title now) s.inner; next = next },
    )

unfoldable pub missing_session : Str → ApiError
missing_session id = not_found (text "coding session " ∷ quoted id ∷ text " not found" ∷ [])

unfoldable pub find_session : Str → SessionStore → ApiResult SessionRecord
unfolding missing_session
find_session id s = ok_or (get id s.inner) (missing_session id)

unfoldable pub validate_session : SessionRecord → Str → ApiResult (Unit {0})
validate_session session workspace = do
  refuse_if (not (eq_str session.workspace workspace))
      (forbidden (says "coding session belongs to another workspace"))
  refuse_if (not (is_active session.status)) (conflict (says "coding session is not active"))

-- `get_mut` followed by writes to the record, or an error that leaves the store as it was.
abbrev pub update :
    Str → ApiResult SessionRecord → SessionStore → ApiResult (Unit {0}) × SessionStore
update id (err e) s = (err e, s)
update id (ok session) s = (ok tt, record s { inner = insert id session s.inner })

module _ (digest : Bytes → Str) where
  unfoldable pub snapshot_of : Bytes → Bytes → FileSnapshot
  snapshot_of before after = record {
    before = before;
    before_sha256 = digest before;
    after_sha256 = digest after;
  }

  -- The session with a change of a file: the content before it is kept once.
  unfoldable pub with_change : Str → Bytes → Bytes → SessionRecord → ApiResult SessionRecord
  unfolding snapshot_of
  with_change path before after session = elim (get path session.files) [
    | some existing ↦ ok (record session {
      files = insert path (record existing { after_sha256 = digest after }) session.files;
    })
    | none ↦ do
      refuse_if (leb max_files_per_session (length session.files)) (
          conflict
            (text "session file limit of " ∷ number max_files_per_session ∷ text " reached" ∷ []))
      refuse_if (ltb max_snapshot_bytes (saturating_add session.bytes (length before)))
          (conflict (says "session rollback snapshot budget exceeded"))
      ok (record session {
        bytes = session.bytes + length before;
        files = insert path (snapshot_of before after) session.files;
      })
  ]

  unfoldable pub capture_change :
      Str → Str → Str → Bytes → Bytes → SessionStore → ApiResult (Unit {0}) × SessionStore
  unfolding find_session validate_session with_change
  capture_change id workspace path before after s =
      update id
        (do
          session ← find_session id s
          validate_session session workspace
          with_change path before after session)
        s

-- The first half of `finalize`, and the write at the end of `rollback`, which does not look at the
-- status again.
unfoldable pub mark_finalized : Str → SessionStore → ApiResult (Unit {0}) × SessionStore
unfolding find_session
mark_finalized id s =
    update id
      (do
        session ← find_session id s
        refuse_if (not (is_active session.status)) (conflict (says "session is not active"))
        ok (record session { status = finalized }))
      s

unfoldable pub mark_rolled_back : Str → SessionStore → SessionStore
mark_rolled_back id s = elim (get id s.inner) [
  | none ↦ s
  | some session ↦ record s { inner = insert id (record session { status = rolled_back }) s.inner }
]
