-- ===== src/Workspace.antt =====
-- src/workspace.rs: the workspaces and the resolution of a path in one.
pub mod Resolve
mod Tests
use tux_bridge.Prelude.{
  Str, codes, String, Bool, true, false, not, Option, none, some, List, [], ◌∷◌, any, if◌then◌else◌,
}
use tux_bridge.Prelude.Dict.{Dict, get}
use tux_bridge.Error.{
  ApiResult, Result, ok, err, ◌>>=◌, ◌>>◌, refuse_if, ok_or, map_err, says, text, quoted,
  bad_request, forbidden, not_found,
}
use tux_bridge.Config.{Config, Capabilities, WorkspaceConfig}
use tux_bridge.Paths.{
  PathBuf, components, is_absolute, escapes, join, is_under, relative_display, to_string,
}
use tux_bridge.Host.{Host, EntryKind, file, directory, symlink, other, is_dir, map_io}

pub record WorkspaceSummary : Type 0 where
  pub name : Str
  pub root : Str
  pub exists : Bool
  pub capabilities : Capabilities

pub record ResolveRequest : Type 0 where
  pub workspace : Str
  pub path : Str

pub record ResolveResponse : Type 0 where
  pub workspace : Str
  pub requested : Str
  pub relative : Str
  pub absolute : Str
  pub kind : String

unfoldable pub kind_name : EntryKind → String
kind_name file = "file"
kind_name directory = "directory"
kind_name symlink = "symlink"
kind_name other = "other"

unfoldable pub validate_relative : PathBuf → ApiResult (Unit {0})
validate_relative path = do
  refuse_if (is_absolute path) (bad_request (says "path must be relative to the workspace"))
  refuse_if (any escapes path) (bad_request (says "path traversal is not allowed"))

module _ (host : Host) where
  unfoldable pub summary : Str → WorkspaceConfig → host.World → WorkspaceSummary
  summary name workspace w = record {
    name = name;
    root = workspace.root;
    exists = elim (host.metadata (components workspace.root) w) [
      | ok m ↦ is_dir m.kind
      | err e ↦ false
    ];
    capabilities = workspace.capabilities;
  }

  unfoldable pub summaries : Dict WorkspaceConfig → host.World → List WorkspaceSummary
  unfolding summary
  summaries [] w = []
  summaries ((name, workspace) ∷ rest) w = summary name workspace w ∷ summaries rest w

  pub list_workspaces : Config → host.World → List WorkspaceSummary
  list_workspaces config w = summaries config.workspaces w

  unfoldable pub get_workspace : Config → Str → host.World → ApiResult WorkspaceSummary
  unfolding summary
  get_workspace config name w = do
    workspace ←
        ok_or (get name config.workspaces)
          (not_found (text "workspace " ∷ quoted name ∷ text " is not configured" ∷ []))
    ok (summary name workspace w)

  unfoldable pub resolve_path : Config → ResolveRequest → host.World → ApiResult ResolveResponse
  unfolding validate_relative kind_name
  resolve_path config request w = do
    workspace ←
        ok_or (get request.workspace config.workspaces) (
          not_found (text "workspace " ∷ quoted request.workspace ∷ text " is not configured" ∷ []))
    refuse_if (not workspace.capabilities.fs_read) (
        forbidden (
          text "workspace "
          ∷ quoted request.workspace
          ∷ text " does not allow filesystem reads"
          ∷ []))
    let relative = components request.path
    validate_relative relative
    root ← map_err map_io (host.canonicalize (components workspace.root) w)
    target ← map_err map_io (host.canonicalize (join root relative) w)
    refuse_if (not (is_under root target)) (forbidden (says "resolved path escapes workspace root"))
    metadata ← map_err map_io (host.symlink_metadata target w)
    ok (record {
      workspace = request.workspace;
      requested = request.path;
      relative = relative_display root target;
      absolute = to_string target;
      kind = kind_name metadata.kind;
    })
