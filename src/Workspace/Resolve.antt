-- ===== src/Workspace/Resolve.antt =====
-- What `resolve_path` (src/workspace.rs) discloses.
use tux_bridge.Prelude.{◌≡◌, inl, inr, true, some, Option-cases, Bool-cases, arith}
use tux_bridge.Prelude.Dict.{get}
use tux_bridge.Error.{Result-cases, ok}
use tux_bridge.Config.{Config, WorkspaceConfig}
use tux_bridge.Paths.{PathBuf, components, join, is_under, relative_display, to_string}
use tux_bridge.Host.{Host}
use tux_bridge.Workspace.{ResolveRequest, ResolveResponse, resolve_path, validate_relative}

module _ (host : Host) where
  pub IsInside : Config → ResolveRequest → host.World → ResolveResponse → Type 0
  IsInside config request w response =
      (workspace : WorkspaceConfig) × (root : PathBuf) × (target : PathBuf) × (get request.workspace
          config.workspaces
        ≡ some workspace)
      × (workspace.capabilities.fs_read ≡ true)
      × (host.canonicalize (components workspace.root) w ≡ ok root)
      × (host.canonicalize (join root (components request.path)) w ≡ ok target)
      × (is_under root target ≡ true)
      × (response.absolute ≡ to_string target)
      × (response.relative ≡ relative_display root target)

  -- A path is resolved only in a workspace that allows reads, and then the path returned is the
  -- canonical form of the request under the canonical root of that workspace.
  pub resolve_path-IsInside :
      (config : Config) (request : ResolveRequest) (w : host.World) (response : ResolveResponse)
      → resolve_path host config request w ≡ ok response
      → IsInside config request w response
  unfolding resolve_path IsInside
  resolve_path-IsInside config request w response h =
      elim (Option-cases (get request.workspace config.workspaces)) [
        | inl e ↦ absurd (ground arith)
        | inr (workspace, e) ↦ elim (Bool-cases workspace.capabilities.fs_read) [
          | inr r ↦ absurd (ground arith)
          | inl r ↦ elim (Result-cases (validate_relative (components request.path))) [
            | inr (x, v) ↦ absurd (ground arith)
            | inl (done, v) ↦
                elim (Result-cases (host.canonicalize (components workspace.root) w)) [
                  | inr (x, c) ↦ absurd (ground arith)
                  | inl (root, c) ↦
                      elim (Result-cases
                        (host.canonicalize (join root (components request.path)) w)) [
                          | inr (x, t) ↦ absurd (ground arith)
                          | inl (target, t) ↦ elim (Bool-cases (is_under root target)) [
                            | inr u ↦ absurd (ground arith)
                            | inl u ↦ elim (Result-cases (host.symlink_metadata target w)) [
                              | inr (x, m) ↦ absurd (ground arith)
                              | inl (m, l) ↦ (
                                workspace,
                                root,
                                target,
                                e,
                                r,
                                c,
                                t,
                                u,
                                ground arith,
                                ground arith,
                              )
                            ]
                          ]
                        ]
                ]
          ]
        ]
      ]
