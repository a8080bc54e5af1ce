-- ===== src/Sessions/Tests.antt =====
-- A session with one file, on the host of Host/Memory.
use tux_bridge.Prelude.{◌≡◌, refl, codes, none, some, [], ◌∷◌, texts, arith, true, false}
use tux_bridge.Prelude.Dict.{get, sum_by}
use tux_bridge.Prelude.Sort.{sort_by}
use tux_bridge.Mutation.Write.{begin_temp}
use tux_bridge.Config.{Config, default_config}
use tux_bridge.Paths.{PathBuf, root_dir, normal, components, is_absolute, is_under, join, parent}
use tux_bridge.Events.{new_hub}
use tux_bridge.Host.Memory.{Files, memory, put, look, canonical, new_temp, rename}
use tux_bridge.Approvals.{new_store}
use tux_bridge.State.{AppState}
use tux_bridge.Sessions.{
  SessionStore, SessionRecord, empty_store, active, create, capture_change, find_session,
}
use tux_bridge.Sessions.Files.{restore_all, prepare, safe_existing, atomic_write, is_regular}
use tux_bridge.Sessions.Handlers.{
  create_session, checkpoint, refresh, finalize, rollback, plan_rollback, configured, with_event,
}
use tux_bridge.Sessions.Steps.{creates, captures, next, done}
use tux_bridge.Sessions.Sound.{handlers-IsSound}
use tux_bridge.Sessions.Writes.{Writes}
use tux_bridge.Sessions.Invariant.{IsSound, IsSoundSession, Reaches-IsSound}

abbrev config : Config
config = record default_config {
  workspaces =
      (
        codes "w",
        record {
          root = codes "/srv";
          capabilities = record {
            fs_read = true;
            fs_write = true;
            commands = false;
            git_read = false;
            git_write = false;
            git_network = false;
          };
        },
      )
      ∷ [];
}

abbrev place : PathBuf
place = root_dir ∷ normal (codes "srv") ∷ normal (codes "a") ∷ []

abbrev disk : Files
disk = put place (some (codes "new")) (λ p. none)

abbrev session : SessionRecord
session = record {
  id = codes "edit-1";
  workspace = codes "w";
  title = codes "t";
  created_at_unix_ms = 5;
  status = active;
  files =
      (
        codes "a",
        record { before = codes "old"; before_sha256 = codes "old"; after_sha256 = codes "new" },
      )
      ∷ [];
  bytes = 3;
}

abbrev state : AppState
state = record {
  config = config;
  audit = [];
  events = new_hub;
  approvals = new_store;
  request_gate = 1;
  principals = [];
  role_policy = [];
  sessions = record { inner = (codes "edit-1", session) ∷ []; next = 1 };
  request_sequence = 0;
}

gate : Unit {0}
unfolding texts put look canonical components join is_absolute is_under parent new_temp rename
    restore_all prepare safe_existing atomic_write is_regular rollback plan_rollback configured
    find_session with_event get sort_by begin_temp
gate = tt

restores : (rollback memory 9 (codes "edit-1") state disk).2 place ≡ some (codes "old")
unfolding gate
restores = refl

abbrev captured : SessionStore
captured =
    (capture_change memory.sha256 (codes "edit-0000000000000001") (codes "w") (codes "a")
      (codes "x") (codes "yz") (create 5 (codes "w") (codes "t") empty_store).1).1

empty-IsSound : IsSound memory.sha256 empty_store
unfolding IsSound sum_by
empty-IsSound = (tt, omega arith)

Reaches-IsSound_example : IsSound memory.sha256 captured
Reaches-IsSound_example =
    Reaches-IsSound memory
      (next (creates 5 (codes "w") (codes "t")) (
        next
          (captures (codes "edit-0000000000000001") (codes "w") (codes "a") (codes "x")
            (codes "yz"))
          done))
      empty-IsSound

sound : IsSound memory.sha256 state.sessions
unfolding IsSound IsSoundSession sum_by
sound = (((omega arith, refl, omega arith, (refl, tt)), tt), omega arith)

handlers-IsSound_example :
    IsSound memory.sha256
      (create_session memory 5 6
        (record { workspace = codes "w"; title = none })
        state
        disk).1.sessions
    × IsSound memory.sha256
        (checkpoint memory 6
          (codes "edit-1")
          (record { paths = codes "a" ∷ [] })
          state
          disk).1.sessions
    × IsSound memory.sha256
        (refresh memory 6
          (codes "edit-1")
          (record { paths = codes "a" ∷ [] })
          state
          disk).1.sessions
    × IsSound memory.sha256 (finalize memory 6 (codes "edit-1") state disk).1.sessions
    × IsSound memory.sha256 (rollback memory 6 (codes "edit-1") state disk).1.sessions
handlers-IsSound_example =
    handlers-IsSound memory 5 6 (codes "edit-1") (record { workspace = codes "w"; title = none })
      (record { paths = codes "a" ∷ [] }) state disk sound
