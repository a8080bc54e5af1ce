-- ===== src/Sessions/Sound.antt =====
-- The handlers of src/sessions.rs keep the store sound.
use tux_bridge.Host.{Host}
use tux_bridge.State.{AppState}
use tux_bridge.Sessions.Handlers.{
  CreateSessionRequest, TrackFilesRequest, create_session, checkpoint, refresh, finalize, rollback,
}
use tux_bridge.Sessions.Steps.{handlers-Reaches}
use tux_bridge.Sessions.Invariant.{IsSound, Reaches-IsSound}
use tux_bridge.Prelude.{ℕ, Str}

module _ (host : Host) where
  -- Where the store is sound, it is so after each of the five handlers that change sessions, whether
  -- the handler succeeds or fails part of the way: every session has at most 128 files, `bytes` is the
  -- size of the contents that it keeps and at most 32 MiB, each content has the hash that is shown for
  -- it, and at most 64 sessions are active.
  pub handlers-IsSound :
      (created now : ℕ) (id : Str) (req : CreateSessionRequest) (files : TrackFilesRequest)
      (state : AppState) (w : host.World)
      → IsSound host.sha256 state.sessions
      → IsSound host.sha256 (create_session host created now req state w).1.sessions
        × IsSound host.sha256 (checkpoint host now id files state w).1.sessions
        × IsSound host.sha256 (refresh host now id files state w).1.sessions
        × IsSound host.sha256 (finalize host now id state w).1.sessions
        × IsSound host.sha256 (rollback host now id state w).1.sessions
  handlers-IsSound created now id req files state w sound =
      let (creating, checking, refreshing, finalizing, undoing) =
        handlers-Reaches host created now id req files state w in
      (
        Reaches-IsSound host creating sound,
        Reaches-IsSound host checking sound,
        Reaches-IsSound host refreshing sound,
        Reaches-IsSound host finalizing sound,
        Reaches-IsSound host undoing sound,
      )
