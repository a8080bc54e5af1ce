-- ===== src/Workspace/Tests.antt =====
-- `resolve_path` on the host of Host/Memory.
use tux_bridge.Prelude.{◌≡◌, refl, codes, true, false, some, none, [], ◌∷◌, as_bytes, texts}
use tux_bridge.Error.{ok}
use tux_bridge.Config.{Config, default_config}
use tux_bridge.Paths.{
  root_dir, normal, components, is_absolute, is_under, join, relative_display, to_string,
  strip_root,
}
use tux_bridge.Host.Memory.{Files, memory, put, look, canonical}
use tux_bridge.Workspace.{ResolveRequest, ResolveResponse, resolve_path}
use tux_bridge.Workspace.Resolve.{IsInside, resolve_path-IsInside}

abbrev config : Config
config = record default_config {
  workspaces =
      (
        codes "home",
        record {
          root = codes "/srv";
          capabilities = record {
            fs_read = true;
            fs_write = false;
            commands = false;
            git_read = false;
            git_write = false;
            git_network = false;
          };
        },
      )
      ∷ [];
}

abbrev notes : Files
notes =
    put (root_dir ∷ normal (codes "srv") ∷ normal (codes "b") ∷ [])
      (some (as_bytes (codes "notes"))) (λ p. none)

abbrev request : ResolveRequest
request = record { workspace = codes "home"; path = codes "./b" }

abbrev response : ResolveResponse
response = record {
  workspace = codes "home";
  requested = codes "./b";
  relative = codes "b";
  absolute = codes "/srv/b";
  kind = "file";
}

resolves : resolve_path memory config request notes ≡ ok response
unfolding resolve_path texts components is_absolute is_under join relative_display to_string
    strip_root look canonical put
resolves = refl

resolve_path-IsInside_example : IsInside memory config request notes response
resolve_path-IsInside_example = resolve_path-IsInside memory config request notes response resolves
