-- ===== src/Jobs.antt =====
-- src/command.rs: the store of background jobs. Each operation holds the store's lock from its first
-- read to its last write, so it is one step from store to store; `now` is the clock in seconds.
pub mod Invariant
mod Tests
use tux_bridge.Prelude.{
  ℕ, ◌+◌, ◌-◌, Str, Bool, true, false, not, ◌||◌, Option, none, some, List, [], ◌∷◌, length, leb,
  ◌==◌, if◌then◌else◌,
}
use tux_bridge.Prelude.Dict.{Dict, get, insert}
use tux_bridge.Error.{
  ApiResult, Result, ok, err, ◌>>=◌, ◌>>◌, refuse_if, ok_or, not_found, conflict, says, text,
  quoted, number, Message,
}
use tux_bridge.Ids.{format_id, fetch_next}

pub data JobStatus : Type 0 where
  running completed failed timed_out cancelled : JobStatus

abbrev pub is_running : JobStatus → Bool
is_running running = true
is_running _ = false

-- The diagnostics are left out: src/diagnostics.rs makes them from the output.
pub record JobSnapshot : Type 0 where
  pub id : Str
  pub workspace : Str
  pub argv : List Str
  pub status : JobStatus
  pub started_at_unix : ℕ
  pub finished_at_unix : Option ℕ
  pub exit_code : Option ℕ
  pub stdout : Str
  pub stderr : Str
  pub stdout_truncated : Bool
  pub stderr_truncated : Bool
  pub error : Option Message

-- `cancel` is whether the sender is still there.
pub record JobRecord : Type 0 where
  pub snapshot : JobSnapshot
  pub cancel : Bool

pub record JobStore : Type 0 where
  pub jobs : Dict JobRecord
  pub next : ℕ
  pub max_jobs : ℕ
  pub retention_seconds : ℕ

abbrev pub new_jobs : ℕ → ℕ → JobStore
new_jobs max_jobs retention_seconds = record {
  jobs = [];
  next = 0;
  max_jobs = max_jobs;
  retention_seconds = retention_seconds;
}

unfoldable pub next_id : JobStore → Str × JobStore
unfolding fetch_next
next_id s =
    let (sequence, next) = fetch_next s.next in
    (format_id "job-" sequence, record s { next = next })

-- `finished_at_unix.is_none_or(|f| f >= cutoff)`
abbrev pub is_recent : ℕ → Option ℕ → Bool
is_recent cutoff none = true
is_recent cutoff (some f) = leb cutoff f

unfoldable pub is_kept : ℕ → JobRecord → Bool
is_kept cutoff r = is_running r.snapshot.status || is_recent cutoff r.snapshot.finished_at_unix

unfoldable pub retain : (JobRecord → Bool) → Dict JobRecord → Dict JobRecord
retain keep [] = []
retain keep ((id, r) ∷ rest) = if keep r then (id, r) ∷ retain keep rest else retain keep rest

unfoldable pub prune_locked : ℕ → JobStore → JobStore
unfolding retain is_kept
prune_locked now s =
    if s.retention_seconds == 0
    then s
    else record s { jobs = retain (is_kept (now - s.retention_seconds)) s.jobs }

unfoldable pub insert_job : ℕ → Str → JobRecord → JobStore → ApiResult (Unit {0}) × JobStore
unfolding prune_locked
insert_job now id r s =
    let pruned = prune_locked now s in
    if leb pruned.max_jobs (length pruned.jobs)
    then (
      err (
          conflict
            (text "background job limit of " ∷ number s.max_jobs ∷ text " has been reached" ∷ [])),
      pruned,
    )
    else (ok tt, record pruned { jobs = insert id r pruned.jobs })

unfoldable pub get_snapshot : ℕ → Str → JobStore → Option JobSnapshot × JobStore
unfolding prune_locked
get_snapshot now id s =
    let pruned = prune_locked now s in
    (elim (get id pruned.jobs) [ none ↦ none | some r ↦ some r.snapshot ], pruned)

-- The record that `cancel` found: its sender is taken, once.
unfoldable pub cancel_found : JobRecord → ApiResult JobRecord
cancel_found r = do
  refuse_if (not (is_running r.snapshot.status)) (conflict (says "job is not running"))
  refuse_if (not r.cancel) (conflict (says "job cannot be cancelled"))
  ok (record r { cancel = false })

unfoldable pub cancel_job : ℕ → Str → JobStore → ApiResult JobSnapshot × JobStore
unfolding prune_locked cancel_found
cancel_job now id s =
    let pruned = prune_locked now s in
    let found =
      ok_or (get id pruned.jobs) (not_found (text "job " ∷ quoted id ∷ text " was not found" ∷ []))
      >>= cancel_found in
    elim found [
      | err e ↦ (err e, pruned)
      | ok r ↦ (ok r.snapshot, record pruned { jobs = insert id r pruned.jobs })
    ]

pub record CommandResult : Type 0 where
  pub exit_code : Option ℕ
  pub stdout : Str
  pub stderr : Str
  pub stdout_truncated : Bool
  pub stderr_truncated : Bool
  pub timed_out : Bool

-- How a job ended: `Ok`, `ExecuteError::Cancelled` and `ExecuteError::Failed`.
pub data Completion : Type 0 where
  exited : CommandResult → Completion
  stopped : Str → Str → Bool → Bool → Completion
  broken : Message → Completion

abbrev is_zero_code : Option ℕ → Bool
is_zero_code none = false
is_zero_code (some code) = code == 0

unfoldable pub status_of : CommandResult → JobStatus
status_of r =
    if r.timed_out then timed_out else if is_zero_code r.exit_code then completed else failed

unfoldable pub completed_snapshot : ℕ → Completion → JobSnapshot → JobSnapshot
unfolding status_of
completed_snapshot now (exited r) s = record s {
  finished_at_unix = some now;
  exit_code = r.exit_code;
  stdout = r.stdout;
  stderr = r.stderr;
  stdout_truncated = r.stdout_truncated;
  stderr_truncated = r.stderr_truncated;
  status = status_of r;
}
completed_snapshot now (stopped stdout stderr stdout_truncated stderr_truncated) s = record s {
  finished_at_unix = some now;
  stdout = stdout;
  stderr = stderr;
  stdout_truncated = stdout_truncated;
  stderr_truncated = stderr_truncated;
  status = cancelled;
}
completed_snapshot now (broken message) s = record s {
  finished_at_unix = some now;
  error = some message;
  status = failed;
}

unfoldable pub finish : ℕ → Str → Completion → JobStore → JobStore
unfolding completed_snapshot
finish now id completion s = elim (get id s.jobs) [
  | none ↦ s
  | some r ↦ record s {
    jobs =
        insert id
          (record { snapshot = completed_snapshot now completion r.snapshot; cancel = false })
          s.jobs;
  }
]

unfoldable pub started_snapshot : ℕ → Str → Str → List Str → JobSnapshot
started_snapshot now id workspace argv = record {
  id = id;
  workspace = workspace;
  argv = argv;
  status = running;
  started_at_unix = now;
  finished_at_unix = none;
  exit_code = none;
  stdout = [];
  stderr = [];
  stdout_truncated = false;
  stderr_truncated = false;
  error = none;
}

-- What `start_command` does to the store, at two readings of the clock.
unfoldable pub start_job : ℕ → ℕ → Str → List Str → JobStore → ApiResult JobSnapshot × JobStore
unfolding next_id started_snapshot insert_job
start_job started now workspace argv s =
    let (id, s') = next_id s in
    let snapshot = started_snapshot started id workspace argv in
    let (done, s'') = insert_job now id (record { snapshot = snapshot; cancel = true }) s' in
    (done >> ok snapshot, s'')
