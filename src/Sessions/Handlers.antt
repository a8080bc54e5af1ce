-- ===== src/Sessions/Handlers.antt =====
-- The handlers of src/sessions.rs over the shared state. Each reading of the clock is an argument;
-- `now` is the one of the event.
use tux_bridge.Prelude.{
  ℕ, Str, codes, Bool, true, false, not, ◌||◌, ◌&&◌, String, Option, none, some, List, [], ◌∷◌,
  ◌++◌, is_empty, length, ltb, or_else, map,
}
use tux_bridge.Prelude.Dict.{get, values}
use tux_bridge.Error.{
  ApiResult, ok, err, ◌>>=◌, ◌>>◌, refuse_if, ok_or, map_err, bad_request, forbidden, not_found,
  conflict, says, text, shown, number,
}
use tux_bridge.Config.{Config, WorkspaceConfig}
use tux_bridge.Paths.{PathBuf, components}
use tux_bridge.Host.{Host, map_io}
use tux_bridge.Events
use tux_bridge.Events.{Emission, emit}
use tux_bridge.State.{AppState}
use tux_bridge.Sessions.{
  max_files_per_session, is_active, find_session, create, mark_finalized, mark_rolled_back,
}
use tux_bridge.Sessions.Files.{
  SessionView, Restore, ordered, checkpoint_paths, refresh_paths, view_record, prepare, restore_all,
}

pub record CreateSessionRequest : Type 0 where
  pub workspace : Str
  pub title : Option Str

pub record TrackFilesRequest : Type 0 where
  pub paths : List Str

pub record RollbackResponse : Type 0 where
  pub id : Str
  pub restored : List Str
  pub skipped : List Str

-- `skipped.join(", ")`
unfoldable pub join_names : List Str → Str
join_names [] = []
join_names (s ∷ []) = s
join_names (s ∷ t ∷ rest) = s ++ codes ", " ++ join_names (t ∷ rest)

unfoldable pub configured : Config → Str → String → ApiResult WorkspaceConfig
configured config name message = ok_or (get name config.workspaces) (not_found (says message))

unfoldable pub created_event : ℕ → Str → Str → Emission
created_event now workspace id = record {
  now = now;
  kind = "session.created";
  workspace = some workspace;
  summary = text "created coding session " ∷ shown id ∷ [];
  value = ("session_id", Events.text id) ∷ [];
}

unfoldable pub checkpointed_event : ℕ → Str → Str → List Str → Emission
checkpointed_event now workspace id paths = record {
  now = now;
  kind = "session.checkpointed";
  workspace = some workspace;
  summary = text "checkpointed " ∷ number (length paths) ∷ text " files in " ∷ shown id ∷ [];
  value = ("session_id", Events.text id) ∷ ("paths", Events.texts paths) ∷ [];
}

unfoldable pub updated_event : ℕ → Str → Str → List Str → Emission
updated_event now workspace id paths = record {
  now = now;
  kind = "session.updated";
  workspace = some workspace;
  summary = text "updated session hashes for " ∷ number (length paths) ∷ text " files" ∷ [];
  value = ("session_id", Events.text id) ∷ ("paths", Events.texts paths) ∷ [];
}

unfoldable pub finalized_event : ℕ → Str → Emission
finalized_event now id = record {
  now = now;
  kind = "session.finalized";
  workspace = none;
  summary = text "finalized coding session " ∷ shown id ∷ [];
  value = ("session_id", Events.text id) ∷ [];
}

unfoldable pub rolled_back_event : ℕ → Str → Str → List Str → Emission
rolled_back_event now workspace id restored = record {
  now = now;
  kind = "session.rolled_back";
  workspace = some workspace;
  summary = text "rolled back coding session " ∷ shown id ∷ [];
  value = ("session_id", Events.text id) ∷ ("restored", Events.texts restored) ∷ [];
}

unfoldable pub with_event : Emission → AppState → AppState
with_event e state = record state { events = emit state.events e }

module _ (host : Host) where
  unfoldable pub list_sessions : AppState → host.World → List SessionView
  unfolding view_record
  list_sessions state w = map (λ s. view_record host state.config s w) (values state.sessions.inner)

  unfoldable pub get_session : Str → AppState → host.World → ApiResult SessionView
  unfolding find_session view_record
  get_session id state w =
      find_session id state.sessions >>= λ s. ok (view_record host state.config s w)

  -- The end of four handlers: the event of a store operation that succeeded, and the view.
  unfoldable pub answer_view :
      Str
      → ApiResult (Unit {0})
      → Emission
      → host.World
      → AppState
      → ApiResult SessionView × AppState
  unfolding get_session with_event
  answer_view id (err e) event w state = (err e, state)
  answer_view id (ok done) event w state =
      let state' = with_event event state in (get_session id state' w, state')

  unfoldable pub create_session :
      ℕ → ℕ → CreateSessionRequest → AppState → host.World → ApiResult SessionView × AppState
  unfolding configured create answer_view created_event
  create_session created now req state w =
      let allowed = configured state.config req.workspace "workspace not configured" >>= λ ws.
      refuse_if (not ws.capabilities.fs_read)
        (forbidden (says "workspace does not allow filesystem reads")) in
      let title = or_else req.title (codes "Agent coding session") in
      elim allowed [
        | err e ↦ (err e, state)
        | ok done ↦
            let (made, sessions) = create created req.workspace title state.sessions in
            elim made [
              | err e ↦ (err e, record state { sessions = sessions })
              | ok id ↦
                  answer_view id (ok tt) (created_event now req.workspace id) w
                    (record state { sessions = sessions })
            ]
      ]

  -- What `checkpoint` and `refresh` look up before the store's operation.
  unfoldable pub tracked_root : Str → Bool → AppState → host.World → ApiResult (Str × PathBuf)
  unfolding find_session configured
  tracked_root id needs_read state w = do
    session ← find_session id state.sessions
    ws ← configured state.config session.workspace "workspace no longer configured"
    refuse_if (needs_read && not ws.capabilities.fs_read)
        (forbidden (says "workspace does not allow reads"))
    root ← map_err map_io (host.canonicalize (components ws.root) w)
    ok (session.workspace, root)

  unfoldable pub checkpoint :
      ℕ → Str → TrackFilesRequest → AppState → host.World → ApiResult SessionView × AppState
  unfolding tracked_root checkpoint_paths answer_view checkpointed_event
  checkpoint now id req state w =
      let found =
        refuse_if (is_empty req.paths || ltb max_files_per_session (length req.paths))
          (bad_request (says "paths must contain 1..128 files"))
        >> tracked_root id true state w in
      elim found [
        | err e ↦ (err e, state)
        | ok (workspace, root) ↦
            let (done, sessions) =
              checkpoint_paths host id workspace root req.paths w state.sessions in
            answer_view id done (checkpointed_event now workspace id req.paths) w
              (record state { sessions = sessions })
      ]

  unfoldable pub refresh :
      ℕ → Str → TrackFilesRequest → AppState → host.World → ApiResult SessionView × AppState
  unfolding tracked_root refresh_paths answer_view updated_event
  refresh now id req state w = elim (tracked_root id false state w) [
    | err e ↦ (err e, state)
    | ok (workspace, root) ↦
        let (done, sessions) = refresh_paths host id workspace root req.paths w state.sessions in
        answer_view id done (updated_event now workspace id req.paths) w
          (record state { sessions = sessions })
  ]

  unfoldable pub finalize : ℕ → Str → AppState → host.World → ApiResult SessionView × AppState
  unfolding mark_finalized answer_view finalized_event
  finalize now id state w =
      let (done, sessions) = mark_finalized id state.sessions in
      answer_view id done (finalized_event now id) w (record state { sessions = sessions })

  -- `rollback` up to its first write: the workspace, and the files to write.
  unfoldable pub plan_rollback : Str → AppState → host.World → ApiResult (Str × List Restore)
  unfolding find_session configured prepare join_names
  plan_rollback id state w = do
    session ← find_session id state.sessions
    refuse_if (not (is_active session.status))
        (conflict (says "only active sessions can roll back"))
    ws ← configured state.config session.workspace "workspace no longer configured"
    refuse_if (not ws.capabilities.fs_write)
        (forbidden (says "workspace does not allow filesystem writes"))
    root ← map_err map_io (host.canonicalize (components ws.root) w)
    (prepared, skipped) ← prepare host root (ordered session.files) w
    refuse_if (not (is_empty skipped)) (
        conflict (
          text "rollback refused because "
          ∷ number (length skipped)
          ∷ text " session files changed after the agent wrote them: "
          ∷ shown (join_names skipped)
          ∷ []))
    ok (session.workspace, prepared)

  unfoldable pub rollback :
      ℕ → Str → AppState → host.World → ApiResult RollbackResponse × AppState × host.World
  unfolding plan_rollback restore_all mark_rolled_back with_event rolled_back_event
  rollback now id state w = elim (plan_rollback id state w) [
    | err e ↦ (err e, state, w)
    | ok (workspace, prepared) ↦
        let (written, w') = restore_all host prepared w in
        elim written [
          | err e ↦ (err e, state, w')
          | ok restored ↦ (
            ok (record { id = id; restored = restored; skipped = [] }),
            with_event (rolled_back_event now workspace id restored)
                (record state { sessions = mark_rolled_back id state.sessions }),
            w',
          )
        ]
  ]
