-- ===== src/GitExtra/Tests.antt =====
-- The bounds of src/git_extra.rs on a host whose git answers "true" to everything.
use tux_bridge.Prelude.{ℕ, codes, as_bytes, true, false, ◌∷◌, some, [], suc}
use tux_bridge.Error.{ok}
use tux_bridge.Config.{Config, default_config}
use tux_bridge.Process.{Processes}
use tux_bridge.GitExtra.{GitExtraRequest, git_remotes, git_stashes}
use tux_bridge.GitExtra.Bounds.{Bounded, answers-Bounded}

-- The world counts the processes.
abbrev counter : Processes
counter = record {
  World = ℕ;
  canonicalize = λ path w. ok path;
  output = λ command w. (
    ok (record { success = true; code = some 0; stdout = as_bytes (codes "true"); stderr = [] }),
    suc w,
  );
  from_utf8_lossy = λ bytes. bytes;
}

abbrev config : Config
config = record default_config {
  workspaces =
      (
        codes "w",
        record {
          root = codes "/srv";
          capabilities = record {
            fs_read = true;
            fs_write = false;
            commands = false;
            git_read = true;
            git_write = false;
            git_network = false;
          };
        },
      )
      ∷ [];
}

abbrev request : GitExtraRequest
request = record { workspace = codes "w" }

answers-Bounded_example :
    Bounded 128 (git_remotes counter config request)
    × Bounded 200 (git_stashes counter config request)
answers-Bounded_example = answers-Bounded counter config request
