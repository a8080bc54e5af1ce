-- ===== src/Fs/Resolve.antt =====
-- The workspace and the path of a request to src/fs.rs.
use tux_bridge.Prelude.{Str, not, any, [], ◌∷◌}
use tux_bridge.Prelude.Dict.{get}
use tux_bridge.Error.{
  ApiResult, ok, ◌>>=◌, ◌>>◌, refuse_if, ok_or, map_err, says, text, quoted, shown, bad_request,
  forbidden, not_found, internal,
}
use tux_bridge.Config.{Config, WorkspaceConfig}
use tux_bridge.Paths.{PathBuf, components, is_absolute, escapes, join, is_under}
use tux_bridge.Host.{Host, map_io}

unfoldable pub readable_workspace : Config → Str → ApiResult WorkspaceConfig
readable_workspace config name = do
  workspace ←
      ok_or (get name config.workspaces)
        (not_found (text "workspace " ∷ quoted name ∷ text " is not configured" ∷ []))
  refuse_if (not workspace.capabilities.fs_read)
      (forbidden (text "workspace " ∷ quoted name ∷ text " does not allow filesystem reads" ∷ []))
  ok workspace

unfoldable pub validate_relative : PathBuf → ApiResult (Unit {0})
validate_relative path = do
  refuse_if (is_absolute path) (bad_request (says "path must be relative to the workspace"))
  refuse_if (any escapes path)
      (bad_request (says "path traversal outside the workspace is not allowed"))

module _ (host : Host) where
  unfoldable pub resolve_existing :
      WorkspaceConfig → Str → host.World → ApiResult (PathBuf × PathBuf)
  unfolding validate_relative
  resolve_existing workspace requested w = do
    let relative = components requested
    validate_relative relative
    root ←
        map_err (λ e. internal (text "failed to resolve workspace root: " ∷ shown e.message ∷ []))
          (host.canonicalize (components workspace.root) w)
    target ← map_err map_io (host.canonicalize (join root relative) w)
    refuse_if (not (is_under root target)) (forbidden (says "resolved path escapes workspace root"))
    ok (root, target)
