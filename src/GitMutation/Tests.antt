-- ===== src/GitMutation/Tests.antt =====
-- The handlers of src/git_mutation.rs on a host that answers "true" to every command and keeps a log.
use tux_bridge.Prelude.{
  ◌≡◌, ◌≤◌, refl, ◌⊎◌, Str, codes, as_bytes, true, false, some, List, [], ◌∷◌, All, length,
  is_empty, texts,
}
use tux_bridge.Error.{ApiError, ok, err}
use tux_bridge.Config.{Config, default_config}
use tux_bridge.Paths.{PathBuf}
use tux_bridge.Process.{Command, Processes, ◌>>=◌, ◌>>◌, lift, or_fail}
use tux_bridge.GitMutation.{
  GitActionRequest, GitAddRequest, GitCommitRequest, GitPushRequest, require_workspace,
  validate_remote, run_git, run_git_raw, judge_output, canonical_root, ensure_git_repo,
  validate_branch, ensure_remote_exists,
}
use tux_bridge.GitMutation.Handlers.{git_fetch, git_pull, git_add, git_commit, git_push}
use tux_bridge.GitMutation.Hardened.{IsHardened, GitKeeps, handlers-Keeps}
use tux_bridge.Process.Keeps.{Keeps}
use tux_bridge.GitMutation.Names.{
  IsGranted, IsRemoteName, IsRepoPath, git_push-IsGranted, git_add-IsGranted,
}

abbrev recorder : Processes
recorder = record {
  World = List Command;
  canonicalize = λ path w. ok path;
  output = λ command w. (
    ok (record { success = true; code = some 0; stdout = as_bytes (codes "true"); stderr = [] }),
    command ∷ w,
  );
  from_utf8_lossy = λ bytes. bytes;
}

abbrev config : Config
config = record default_config {
  workspaces =
      (
        codes "w",
        record {
          root = codes "/srv";
          capabilities = record {
            fs_read = true;
            fs_write = false;
            commands = false;
            git_read = true;
            git_write = true;
            git_network = true;
          };
        },
      )
      ∷ [];
}

abbrev push : GitPushRequest
push = record { workspace = codes "w"; remote = codes "origin"; branch = codes "main" }

pushed : length (git_push recorder config push []).1 ≡ 5
unfolding git_push require_workspace validate_remote run_git run_git_raw judge_output canonical_root
    ensure_git_repo validate_branch ensure_remote_exists lift or_fail ◌>>=◌ ◌>>◌ texts
pushed = refl

git_push-IsGranted_example :
    ((e : ApiError) × (git_push recorder config push [] ≡ (err e, [])))
    ⊎ (IsRemoteName (codes "origin") × IsGranted config (codes "w") true true)
git_push-IsGranted_example = git_push-IsGranted recorder config push []

abbrev add : GitAddRequest
add = record { workspace = codes "w"; paths = codes "src/a.rs" ∷ [] }

git_add-IsGranted_example :
    ((e : ApiError) × (git_add recorder config add [] ≡ (err e, [])))
    ⊎ ((is_empty add.paths ≡ false)
        × (length add.paths ≤ 1024)
        × All IsRepoPath add.paths
        × IsGranted config (codes "w") true false)
git_add-IsGranted_example = git_add-IsGranted recorder config add []

-- The commands of the log are hardened git commands.
IsHardenedGit : Command → Type 0
IsHardenedGit command = (root : PathBuf) × (args : List Str) × IsHardened root args command

git_keeps : GitKeeps recorder (All IsHardenedGit)
unfolding GitKeeps IsHardenedGit
git_keeps root args command w c h = ((root, args, c), h)

handlers-Keeps_example :
    ((r : GitActionRequest) → Keeps (All IsHardenedGit) (git_fetch recorder config r))
    × ((r : GitActionRequest) → Keeps (All IsHardenedGit) (git_pull recorder config r))
    × ((r : GitAddRequest) → Keeps (All IsHardenedGit) (git_add recorder config r))
    × ((r : GitCommitRequest) → Keeps (All IsHardenedGit) (git_commit recorder config r))
    × ((r : GitPushRequest) → Keeps (All IsHardenedGit) (git_push recorder config r))
handlers-Keeps_example = handlers-Keeps recorder (All IsHardenedGit) git_keeps config
