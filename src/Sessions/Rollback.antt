-- ===== src/Sessions/Rollback.antt =====
-- `rollback` of src/sessions.rs: it writes only when no file changed since the agent wrote it.
use tux_bridge.Prelude.{◌≡◌, Str, Bytes, true, List, [], ◌∷◌, some, if◌then◌else◌, eq_str}
use tux_bridge.Prelude.Dict.{Dict, get}
use tux_bridge.Error.{ok}
use tux_bridge.Config.{WorkspaceConfig}
use tux_bridge.Paths.{PathBuf, components, join, is_under}
use tux_bridge.Host.{Host, Metadata}
use tux_bridge.State.{AppState}
use tux_bridge.Sessions.Writes.{Writes}
use tux_bridge.Sessions.{SessionRecord, SessionStore, rolled_back, FileSnapshot, is_active}
use tux_bridge.Sessions.Files.{Restore, ordered}

module _ (host : Host) where
  -- A file to restore: it is the session's path in the root, in canonical form, and lies under the
  -- root; it still has the content that was recorded last, and will get the content that was kept and
  -- its own permissions.
  pub IsRestore : PathBuf → host.World → Str × FileSnapshot → Restore → Type 0
  IsRestore root w (path, f) r =
      (r.path ≡ path)
      × (r.before ≡ f.before)
      × (host.canonicalize (join root (components path)) w ≡ ok r.target)
      × (is_under root r.target ≡ true)
      × ((metadata : Metadata) × (host.metadata r.target w ≡ ok metadata)
          × (r.permissions ≡ metadata.permissions))
      × ((current : Bytes) × (host.read r.target w ≡ ok current)
          × (host.sha256 current ≡ f.after_sha256))

  -- The files to restore are those of the session, in order.
  pub data ArePrepared (root : PathBuf) (w : host.World)
      : Dict FileSnapshot → List Restore → Type 0 where
    none_left : ArePrepared root w [] []
    one_more :
        {e : Str × FileSnapshot} {r : Restore} {files : Dict FileSnapshot} {rest : List Restore}
        → IsRestore root w e r
        → ArePrepared root w files rest
        → ArePrepared root w (e ∷ files) (r ∷ rest)

  -- What `plan_rollback` has checked.
  pub IsPlanned : Str → AppState → host.World → List Restore → Type 0
  IsPlanned id state w prepared =
      (session : SessionRecord) × (ws : WorkspaceConfig) × (root : PathBuf) × (get id
          state.sessions.inner
        ≡ some session)
      × (get session.workspace state.config.workspaces ≡ some ws)
      × (is_active session.status ≡ true)
      × (ws.capabilities.fs_write ≡ true)
      × (host.canonicalize (components ws.root) w ≡ ok root)
      × ArePrepared root w (ordered session.files) prepared

  -- The session `id` is rolled back, and nothing else has changed in the store.
  pub IsRolledBack : Str → SessionStore → SessionStore → Type 0
  IsRolledBack id s s' =
      (session : SessionRecord) × (get id s.inner ≡ some session)
      × ((j : Str)
          → get j s'.inner ≡ (
              if eq_str id j
              then some (record session { status = rolled_back })
              else get j s.inner))
