-- ===== src/Sessions/Files.antt =====
-- What the operations of src/sessions.rs do with files: `safe_existing`, the loops of `checkpoint`,
-- `refresh` and `rollback`, and the views.
use tux_bridge.Prelude.{
  ℕ, Str, Bytes, Bool, false, not, ◌||◌, Option, none, some, List, [], ◌∷◌, any, if◌then◌else◌,
  eq_str, map,
}
use tux_bridge.Prelude.Dict.{Dict, get, insert}
use tux_bridge.Prelude.Sort.{sort_by}
use tux_bridge.Error.{
  ApiResult, ok, err, ◌>>=◌, ◌>>◌, refuse_if, map_err, bad_request, forbidden, conflict, says, text,
  quoted,
}
use tux_bridge.Config.{Config}
use tux_bridge.Paths.{PathBuf, components, is_absolute, escapes, join, is_under, parent}
use tux_bridge.Host.{Host, is_file, is_symlink, map_io}
use tux_bridge.Mutation.Write.{begin_temp}
use tux_bridge.Sessions.{
  FileSnapshot, SessionRecord, SessionStore, SessionStatus, find_session, validate_session,
  capture_change,
}

pub record SessionFileView : Type 0 where
  pub path : Str
  pub before_sha256 : Str
  pub after_sha256 : Str
  pub current_sha256 : Option Str
  pub rollback_safe : Bool

pub record SessionView : Type 0 where
  pub id : Str
  pub workspace : Str
  pub title : Str
  pub created_at_unix_ms : ℕ
  pub status : SessionStatus
  pub files : List SessionFileView

-- The files of a session in the order of a `BTreeMap`.
abbrev pub ordered : Dict FileSnapshot → Dict FileSnapshot
ordered files = sort_by (λ entry. entry.0) files

-- `a.as_deref() == Some(b)`
abbrev is_same : Option Str → Str → Bool
is_same none b = false
is_same (some a) b = eq_str a b

abbrev to_option : {A : Type 0} → ApiResult A → Option A
to_option (ok a) = some a
to_option (err e) = none

-- A file that a rollback will write: what `prepared` holds.
pub record Restore : Type 0 where
  pub path : Str
  pub target : PathBuf
  pub before : Bytes
  pub permissions : ℕ

module _ (host : Host) where
  -- `c.is_file()`
  unfoldable pub is_regular : PathBuf → host.World → Bool
  is_regular path w = elim (host.metadata path w) [ ok m ↦ is_file m.kind | err e ↦ false ]

  unfoldable pub safe_existing : PathBuf → Str → host.World → ApiResult PathBuf
  unfolding is_regular
  safe_existing root rel w = do
    let path = components rel
    refuse_if (is_absolute path || any escapes path)
        (bad_request (says "session path escapes workspace"))
    let raw = join root path
    metadata ← map_err map_io (host.symlink_metadata raw w)
    refuse_if (is_symlink metadata.kind)
        (forbidden (says "session rollback through symlinks is forbidden"))
    target ← map_err map_io (host.canonicalize raw w)
    refuse_if (not (is_under root target) || not (is_regular target w))
        (forbidden (says "session path escapes workspace"))
    ok target

  unfoldable pub read_tracked : PathBuf → Str → host.World → ApiResult Bytes
  unfolding safe_existing
  read_tracked root rel w = do path ← safe_existing root rel w; map_err map_io (host.read path w)

  -- The store's `checkpoint`: a change is captured for each path, up to the first error.
  unfoldable pub checkpoint_paths :
      Str
      → Str
      → PathBuf
      → List Str
      → host.World
      → SessionStore
      → ApiResult (Unit {0}) × SessionStore
  unfolding read_tracked capture_change
  checkpoint_paths id workspace root [] w s = (ok tt, s)
  checkpoint_paths id workspace root (rel ∷ paths) w s = elim (read_tracked root rel w) [
    | err e ↦ (err e, s)
    | ok bytes ↦
        let (captured, s') = capture_change host.sha256 id workspace rel bytes bytes s in
        elim captured [
          | err e ↦ (err e, s')
          | ok done ↦ checkpoint_paths id workspace root paths w s'
        ]
  ]

  -- The loop of the store's `refresh`: the snapshots that it reached are changed, error or not.
  unfoldable pub refresh_files :
      PathBuf → List Str → host.World → Dict FileSnapshot → ApiResult (Unit {0}) × Dict FileSnapshot
  unfolding read_tracked
  refresh_files root [] w files = (ok tt, files)
  refresh_files root (rel ∷ paths) w files = elim (get rel files) [
    | none ↦
        (err (conflict (quoted rel ∷ text " was not checkpointed in this session" ∷ [])), files)
    | some snapshot ↦ elim (read_tracked root rel w) [
      | err e ↦ (err e, files)
      | ok bytes ↦
          refresh_files root paths w
            (insert rel (record snapshot { after_sha256 = host.sha256 bytes }) files)
    ]
  ]

  unfoldable pub refresh_paths :
      Str
      → Str
      → PathBuf
      → List Str
      → host.World
      → SessionStore
      → ApiResult (Unit {0}) × SessionStore
  unfolding find_session validate_session refresh_files
  refresh_paths id workspace root paths w s =
      let found =
        find_session id s >>= λ session. validate_session session workspace >> ok session in
      elim found [
        | err e ↦ (err e, s)
        | ok session ↦
            let (done, files) = refresh_files root paths w session.files in
            (done, record s { inner = insert id (record session { files = files }) s.inner })
      ]

  -- `view_record`
  unfoldable pub file_view : Option PathBuf → host.World → Str × FileSnapshot → SessionFileView
  unfolding read_tracked
  file_view root w (path, f) =
      let current : Option Str = elim root [
        | none ↦ none
        | some r ↦ elim (read_tracked r path w) [ err e ↦ none | ok b ↦ some (host.sha256 b) ]
      ] in
      record {
        path = path;
        before_sha256 = f.before_sha256;
        after_sha256 = f.after_sha256;
        current_sha256 = current;
        rollback_safe = is_same current f.after_sha256;
      }

  unfoldable pub root_of : Config → Str → host.World → Option PathBuf
  root_of config workspace w = elim (get workspace config.workspaces) [
    | none ↦ none
    | some ws ↦ to_option (map_err map_io (host.canonicalize (components ws.root) w))
  ]

  unfoldable pub view_record : Config → SessionRecord → host.World → SessionView
  unfolding file_view root_of
  view_record config s w = record {
    id = s.id;
    workspace = s.workspace;
    title = s.title;
    created_at_unix_ms = s.created_at_unix_ms;
    status = s.status;
    files = map (file_view (root_of config s.workspace w) w) (ordered s.files);
  }

  -- The first loop of `rollback`: the files to write, and those that changed since.
  unfoldable pub prepare :
      PathBuf → Dict FileSnapshot → host.World → ApiResult (List Restore × List Str)
  unfolding safe_existing
  prepare root [] w = ok ([], [])
  prepare root ((rel, f) ∷ files) w =
      let others = prepare root files w in
      safe_existing root rel w >>= λ path. map_err map_io (host.read path w) >>= λ current.
      if not (eq_str (host.sha256 current) f.after_sha256)
      then (others >>= λ found. ok (found.0, rel ∷ found.1))
      else (map_err map_io (host.metadata path w) >>= λ metadata. others >>= λ found. ok (
        record { path = rel; target = path; before = f.before; permissions = metadata.permissions }
            ∷ found.0,
        found.1,
      ))

  -- The steps on the temporary file are those of src/mutation.rs.
  unfoldable pub atomic_write : PathBuf → Bytes → ℕ → host.World → ApiResult (Unit {0}) × host.World
  atomic_write target content permissions w = elim (parent target) [
    | none ↦ (err (bad_request (says "file has no parent")), w)
    | some dir ↦
        begin_temp host
          (record {
            root = [];
            target = target;
            content = content;
            permissions = some permissions;
            no_clobber = false;
          })
          (host.create_temp dir w)
  ]

  -- The second loop, up to the first error.
  unfoldable pub restore_all : List Restore → host.World → ApiResult (List Str) × host.World
  unfolding atomic_write
  restore_all [] w = (ok [], w)
  restore_all (r ∷ rest) w =
      let (written, w') = atomic_write r.target r.before r.permissions w in
      let (others, w'') = restore_all rest w' in
      elim written [
        | err e ↦ (err e, w')
        | ok done ↦ (others >>= λ restored. ok (r.path ∷ restored), w'')
      ]
