-- ===== src/Sessions/Steps.antt =====
-- src/sessions.rs: the changes of the store that hold its lock, which requests may interleave.
use tux_bridge.Prelude.{
  ℕ, ◌≡◌, refl, inl, inr, Str, Bytes, true, false, not, ◌||◌, List, [], ◌∷◌, is_empty, length, ltb,
  or_else, codes,
}
use tux_bridge.Error.{
  ApiResult, ok, err, ◌>>=◌, ◌>>◌, refuse_if, Result-cases, forbidden, bad_request, says,
}
use tux_bridge.Paths.{PathBuf}
use tux_bridge.Host.{Host}
use tux_bridge.Events.{Emission}
use tux_bridge.State.{AppState}
use tux_bridge.Sessions.{
  max_files_per_session, SessionStore, create, capture_change, mark_finalized, mark_rolled_back,
}
use tux_bridge.Sessions.Files.{Restore, checkpoint_paths, refresh_paths, restore_all, read_tracked}
use tux_bridge.Sessions.Handlers.{
  CreateSessionRequest, TrackFilesRequest, create_session, checkpoint, refresh, finalize, rollback,
  plan_rollback, tracked_root, answer_view, configured, with_event,
}

module _ (host : Host) where
  pub data Step : SessionStore → SessionStore → Type 0 where
    creates :
        {s : SessionStore} (now : ℕ) (workspace title : Str)
        → Step s (create now workspace title s).1
    captures :
        {s : SessionStore} (id workspace path : Str) (before after : Bytes)
        → Step s (capture_change host.sha256 id workspace path before after s).1
    refreshes :
        {s : SessionStore} (id workspace : Str) (root : PathBuf) (paths : List Str) (w : host.World)
        → Step s (refresh_paths host id workspace root paths w s).1
    finalizes : {s : SessionStore} (id : Str) → Step s (mark_finalized id s).1
    rolls_back : {s : SessionStore} (id : Str) → Step s (mark_rolled_back id s)

  pub data Reaches : SessionStore → SessionStore → Type 0 where
    done : {s : SessionStore} → Reaches s s
    next : {s t u : SessionStore} → Step s t → Reaches t u → Reaches s u

  abbrev one : {s t : SessionStore} → Step s t → Reaches s t
  one step = next step done

  checkpoint_paths-Reaches :
      (id workspace : Str) (root : PathBuf) (paths : List Str) (w : host.World) (s : SessionStore)
      → Reaches s (checkpoint_paths host id workspace root paths w s).1
  unfolding checkpoint_paths
  checkpoint_paths-Reaches id workspace root [] w s = done
  checkpoint_paths-Reaches id workspace root (rel ∷ paths) w s =
      go (read_tracked host root rel w) refl
        (λ s'. checkpoint_paths-Reaches id workspace root paths w s')
    where
      captured : Bytes → ApiResult (Unit {0}) × SessionStore
      captured bytes = capture_change host.sha256 id workspace rel bytes bytes s

      go :
          (r : ApiResult Bytes)
          → read_tracked host root rel w ≡ r
          → ((s' : SessionStore)
              → Reaches s' (checkpoint_paths host id workspace root paths w s').1)
          → Reaches s (checkpoint_paths host id workspace root (rel ∷ paths) w s).1
      go (err e) q later = rw (q, checkpoint_paths) done
      go (ok bytes) q later = elim (Result-cases (captured bytes).0) [
        | inl (u, k) ↦
            rw (q, checkpoint_paths, k)
              (next (captures id workspace rel bytes bytes) (later (captured bytes).1))
        | inr (e, k) ↦ rw (q, checkpoint_paths, k) (one (captures id workspace rel bytes bytes))
      ]

  answer_view_lem :
      (id : Str) (r : ApiResult (Unit {0})) (event : Emission) (w : host.World) (state : AppState)
      → (answer_view host id r event w state).1.sessions ≡ state.sessions
  unfolding answer_view with_event
  answer_view_lem id (ok u) event w state = refl
  answer_view_lem id (err e) event w state = refl

  -- Each of the five handlers that change sessions does so only by a sequence of the steps of `Step`,
  -- each of which holds the store's lock, whether the handler succeeds or fails.
  pub handlers-Reaches :
      (created now : ℕ) (id : Str) (req : CreateSessionRequest) (files : TrackFilesRequest)
      (state : AppState) (w : host.World)
      → Reaches state.sessions (create_session host created now req state w).1.sessions
        × Reaches state.sessions (checkpoint host now id files state w).1.sessions
        × Reaches state.sessions (refresh host now id files state w).1.sessions
        × Reaches state.sessions (finalize host now id state w).1.sessions
        × Reaches state.sessions (rollback host now id state w).1.sessions
  unfolding create_session checkpoint refresh finalize rollback with_event
  handlers-Reaches created now id req files state w = (
    creating allowed refl,
    checking found refl,
    refreshing (tracked_root host id false state w) refl,
    rw (answer_view_lem id _ _ w _) (one (finalizes id)),
    undoing (plan_rollback host id state w) refl,
  )
    where
      allowed : ApiResult (Unit {0})
      allowed = configured state.config req.workspace "workspace not configured" >>= λ ws.
          refuse_if (not ws.capabilities.fs_read)
            (forbidden (says "workspace does not allow filesystem reads"))

      found : ApiResult (Str × PathBuf)
      found =
          refuse_if (is_empty files.paths || ltb max_files_per_session (length files.paths))
            (bad_request (says "paths must contain 1..128 files"))
          >> tracked_root host id true state w

      creating :
          (r : ApiResult (Unit {0}))
          → allowed ≡ r
          → Reaches state.sessions (create_session host created now req state w).1.sessions
      creating (err e) q = rw (q, create_session) done
      creating (ok u) q =
          elim (Result-cases
            (create created req.workspace (or_else req.title (codes "Agent coding session"))
              state.sessions).0) [
                | inl (made, k) ↦
                    rw (q, create_session, k, answer_view_lem made _ _ w _)
                      (one (
                        creates created req.workspace
                          (or_else req.title (codes "Agent coding session"))))
                | inr (e, k) ↦
                    rw (q, create_session, k)
                      (one (
                        creates created req.workspace
                          (or_else req.title (codes "Agent coding session"))))
              ]

      checking :
          (r : ApiResult (Str × PathBuf))
          → found ≡ r
          → Reaches state.sessions (checkpoint host now id files state w).1.sessions
      checking (err e) q = rw (q, checkpoint) done
      checking (ok (workspace, root)) q =
          rw (q, checkpoint, answer_view_lem id _ _ w _)
            (checkpoint_paths-Reaches id workspace root files.paths w state.sessions)

      refreshing :
          (r : ApiResult (Str × PathBuf))
          → tracked_root host id false state w ≡ r
          → Reaches state.sessions (refresh host now id files state w).1.sessions
      refreshing (err e) q = rw (q, refresh) done
      refreshing (ok (workspace, root)) q =
          rw (q, refresh, answer_view_lem id _ _ w _)
            (one (refreshes id workspace root files.paths w))

      undoing :
          (r : ApiResult (Str × List Restore))
          → plan_rollback host id state w ≡ r
          → Reaches state.sessions (rollback host now id state w).1.sessions
      undoing (err e) q = rw (q, rollback) done
      undoing (ok (workspace, prepared)) q = elim (Result-cases (restore_all host prepared w).0) [
        | inl (restored, k) ↦ rw (q, rollback, k) (one (rolls_back id))
        | inr (e, k) ↦ rw (q, rollback, k) done
      ]
