-- ===== src/UserFiles/Resolve.antt =====
-- The rights of a mount, and the resolution of a path inside it (src/user_files.rs).
use tux_bridge.Prelude.{
  ℕ, String, Str, Bytes, Bool, true, false, not, ◌&&◌, [], ◌∷◌, any, is_empty, ltb, if◌then◌else◌,
  eq_ignore_ascii_case,
}
use tux_bridge.Prelude.Dict.{get}
use tux_bridge.Error.{
  ApiResult, ok, err, ◌>>=◌, ◌>>◌, refuse_if, ok_or, map_err, is_ok, says, text, quoted, shown,
  number, bad_request, conflict, forbidden, not_found,
}
use tux_bridge.Config.{Config, UserFilesConfig}
use tux_bridge.Paths.{
  PathBuf, components, is_absolute, escapes, join, is_under, parent, file_name, normal,
}
use tux_bridge.Host.{
  Host, EntryKind, file, directory, symlink, other, missing, is_file, is_symlink, map_io,
}
use tux_bridge.UserFiles.{max_file_bytes}

unfoldable pub require_mount : Config → Str → Bool → ApiResult UserFilesConfig
require_mount config name write = do
  mount ←
      ok_or (get name config.user_files)
        (not_found (text "user-files mount " ∷ quoted name ∷ text " is not configured" ∷ []))
  refuse_if (not (if write then mount.write else mount.read)) (
      forbidden (
        text "user-files mount "
        ∷ quoted name
        ∷ text " does not allow "
        ∷ text (if write then "writes" else "reads")
        ∷ []))
  ok mount

unfoldable pub validate_relative : Str → Bool → ApiResult PathBuf
validate_relative requested require_file = do
  let path = components requested
  refuse_if (require_file && is_empty requested) (bad_request (says "path must not be empty"))
  refuse_if (is_absolute path) (bad_request (says "path must be relative to the configured mount"))
  refuse_if (any escapes path) (bad_request (says "path traversal is not allowed"))
  ok path

unfoldable pub ensure_within : PathBuf → PathBuf → ApiResult (Unit {0})
ensure_within root target =
    refuse_if (not (is_under root target))
      (forbidden (says "resolved path escapes configured mount"))

unfoldable pub ensure_size : ℕ → ApiResult (Unit {0})
ensure_size size = refuse_if (ltb max_file_bytes size) (
    bad_request (
      text "content exceeds user-files mutation limit of "
      ∷ number max_file_bytes
      ∷ text " bytes"
      ∷ []))

unfoldable pub kind : EntryKind → String
kind symlink = "symlink"
kind file = "file"
kind directory = "directory"
kind other = "other"

module _ (host : Host) where
  unfoldable pub reject_symlink : PathBuf → host.World → ApiResult (Unit {0})
  reject_symlink path w = elim (host.symlink_metadata path w) [
    | ok m ↦
        refuse_if (is_symlink m.kind) (forbidden (says "mutation through symlinks is not allowed"))
    | err e ↦ elim e.kind [ missing ↦ ok tt | _ ↦ err (map_io e) ]
  ]

  unfoldable pub resolve_existing :
      UserFilesConfig → Str → host.World → ApiResult (PathBuf × PathBuf)
  unfolding validate_relative ensure_within
  resolve_existing mount requested w = do
    relative_path ← validate_relative requested false
    root ← map_err map_io (host.canonicalize (components mount.root) w)
    target ← map_err map_io (host.canonicalize (join root relative_path) w)
    ensure_within root target
    ok (root, target)

  unfoldable pub resolve_existing_file :
      UserFilesConfig → Str → host.World → ApiResult (PathBuf × PathBuf)
  unfolding resolve_existing reject_symlink
  resolve_existing_file mount requested w = do
    (root, target) ← resolve_existing mount requested w
    reject_symlink target w
    metadata ← map_err map_io (host.metadata target w)
    refuse_if (not (is_file metadata.kind)) (bad_request (says "path is not a regular file"))
    ok (root, target)

  -- The target in its canonical directory; `target.exists()` follows links.
  unfoldable pub settle_target : PathBuf → PathBuf → host.World → ApiResult (PathBuf × PathBuf)
  unfolding reject_symlink ensure_within
  settle_target root target w =
      if is_ok (host.metadata target w)
      then (do
        reject_symlink target w
        canonical_target ← map_err map_io (host.canonicalize target w)
        ensure_within root canonical_target
        ok (root, canonical_target))
      else ok (root, target)

  unfoldable pub resolve_write_target :
      UserFilesConfig → Str → host.World → ApiResult (PathBuf × PathBuf)
  unfolding validate_relative ensure_within settle_target
  resolve_write_target mount requested w = do
    relative_path ← validate_relative requested true
    root ← map_err map_io (host.canonicalize (components mount.root) w)
    dir ←
        ok_or (parent (join root relative_path))
          (bad_request (says "target must have a parent directory"))
    canonical_parent ← map_err map_io (host.canonicalize dir w)
    ensure_within root canonical_parent
    name ←
        ok_or (file_name (join root relative_path)) (bad_request (says "path must identify a file"))
    settle_target root (join canonical_parent (normal name ∷ [])) w

  unfoldable pub read_bounded : PathBuf → host.World → ApiResult Bytes
  read_bounded path w = do
    metadata ← map_err map_io (host.metadata path w)
    refuse_if (ltb max_file_bytes metadata.size) (
        bad_request (
          text "file exceeds user-files mutation/hash limit of "
          ∷ number max_file_bytes
          ∷ text " bytes"
          ∷ []))
    map_err map_io (host.read path w)

  unfoldable pub verify_hash : Str → Bytes → ApiResult (Unit {0})
  verify_hash expected current =
      refuse_if (not (eq_ignore_ascii_case expected (host.sha256 current))) (
        conflict (
          text "file changed: expected sha256 "
          ∷ shown expected
          ∷ text ", current sha256 "
          ∷ shown (host.sha256 current)
          ∷ []))
