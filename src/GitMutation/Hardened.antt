-- ===== src/GitMutation/Hardened.antt =====
-- The handlers of src/git_mutation.rs act on the host by hardened git commands only.
use tux_bridge.Prelude.{◌≡◌, refl, inl, inr, Str, codes, List, [], ◌∷◌}
use tux_bridge.Error.{ApiResult, Result-cases}
use tux_bridge.Config.{Config, WorkspaceConfig}
use tux_bridge.Paths.{PathBuf, to_string}
use tux_bridge.Process.{Command, Processes, Act, ◌>>=◌, ◌>>◌, lift}
use tux_bridge.Process.Keeps.{Keeps, bind-Keeps, then-Keeps, lift-Keeps, or_fail-Keeps}
use tux_bridge.GitMutation.{
  GitActionRequest, GitAddRequest, GitCommitRequest, GitPushRequest, run_git, run_git_raw,
  canonical_root, git_command, ensure_git_repo, ensure_clean_worktree, validate_branch,
  ensure_remote_exists,
}
use tux_bridge.GitMutation.Handlers.{git_fetch, git_pull, git_add, git_commit, git_push}

-- The program is `git` in `root`, which must not ask for a password, run a hook of the repository or
-- start a file-system monitor.
pub record IsHardened (root : PathBuf) (args : List Str) (command : Command) : Type 0 where
  pub is_git : command.program ≡ codes "git"
  pub no_prompt : command.env ≡ (codes "GIT_TERMINAL_PROMPT", codes "0") ∷ []
  pub no_hooks :
      command.args
      ≡ codes "-c"
        ∷ codes "core.hooksPath=/dev/null"
        ∷ codes "-c"
        ∷ codes "core.fsmonitor=false"
        ∷ codes "-C"
        ∷ to_string root
        ∷ args

module _ (host : Processes) (Inv : host.World → Type 0) where
  -- Every hardened git command keeps the invariant.
  unfoldable pub GitKeeps : Type 0
  GitKeeps =
      (root : PathBuf) (args : List Str) (command : Command) (w : host.World)
      → IsHardened root args command
      → Inv w
      → Inv (host.output command w).1

  canonical_root-Keeps : (workspace : WorkspaceConfig) → Keeps Inv (canonical_root host workspace)
  unfolding Keeps canonical_root
  canonical_root-Keeps workspace w i = i

  module _ (keeps : GitKeeps) where
    is_hardened : (root : PathBuf) (args : List Str) → IsHardened root args (git_command root args)
    is_hardened root args = record { is_git = refl; no_prompt = refl; no_hooks = refl }

    run_git_raw-Keeps : (root : PathBuf) (args : List Str) → Keeps Inv (run_git_raw host root args)
    unfolding Keeps run_git_raw GitKeeps
    run_git_raw-Keeps root args w i =
        elim (Result-cases (host.output (git_command root args) w).0) [
          | inl (a, p) ↦ rw (p, run_git_raw) (keeps root args _ w (is_hardened root args) i)
          | inr (x, p) ↦ rw (p, run_git_raw) (keeps root args _ w (is_hardened root args) i)
        ]

    run_git-Keeps : (root : PathBuf) (args : List Str) → Keeps Inv (run_git host root args)
    unfolding run_git
    run_git-Keeps root args =
        bind-Keeps Inv _ _ (run_git_raw-Keeps root args) (λ output. lift-Keeps Inv _)

    ensure_git_repo-Keeps : (root : PathBuf) → Keeps Inv (ensure_git_repo host root)
    unfolding ensure_git_repo
    ensure_git_repo-Keeps root =
        bind-Keeps Inv _ _ (run_git_raw-Keeps root _) (λ result. lift-Keeps Inv _)

    ensure_clean_worktree-Keeps : (root : PathBuf) → Keeps Inv (ensure_clean_worktree host root)
    unfolding ensure_clean_worktree
    ensure_clean_worktree-Keeps root =
        bind-Keeps Inv _ _ (run_git_raw-Keeps root _) (λ result. lift-Keeps Inv _)

    validate_branch-Keeps :
        (root : PathBuf) (branch : Str) → Keeps Inv (validate_branch host root branch)
    unfolding validate_branch
    validate_branch-Keeps root branch = then-Keeps Inv _ _ (lift-Keeps Inv _) (
        bind-Keeps Inv _ _ (or_fail-Keeps Inv _ _ (run_git_raw-Keeps root _)) (λ formed.
          bind-Keeps Inv _ _ (or_fail-Keeps Inv _ _ (run_git_raw-Keeps root _))
            (λ present. lift-Keeps Inv _)))

    ensure_remote_exists-Keeps :
        (root : PathBuf) (remote : Str) → Keeps Inv (ensure_remote_exists host root remote)
    unfolding ensure_remote_exists
    ensure_remote_exists-Keeps root remote =
        bind-Keeps Inv _ _ (or_fail-Keeps Inv _ _ (run_git_raw-Keeps root _))
          (λ found. lift-Keeps Inv _)

    -- Every handler begins with the workspace, its root and the test for a repository.
    opened-Keeps :
        {A : Type 0} (r : ApiResult WorkspaceConfig) (k : PathBuf → Act host.World A)
        → ((root : PathBuf) → Keeps Inv (k root))
        → Keeps Inv (
            lift r >>= λ workspace.
            canonical_root host workspace >>= λ root. ensure_git_repo host root >> k root)
    opened-Keeps r k h = bind-Keeps Inv _ _ (lift-Keeps Inv r) (λ workspace.
        bind-Keeps Inv _ _ (canonical_root-Keeps workspace)
          (λ root. then-Keeps Inv _ _ (ensure_git_repo-Keeps root) (h root)))

    -- Whatever is kept by every `git` that runs in a given root with hooks and file-system monitor
    -- turned off by its first arguments and with `GIT_TERMINAL_PROMPT=0`, each of the five handlers
    -- keeps, on every path: they start no other process.
    pub handlers-Keeps :
        (config : Config)
        → ((r : GitActionRequest) → Keeps Inv (git_fetch host config r))
          × ((r : GitActionRequest) → Keeps Inv (git_pull host config r))
          × ((r : GitAddRequest) → Keeps Inv (git_add host config r))
          × ((r : GitCommitRequest) → Keeps Inv (git_commit host config r))
          × ((r : GitPushRequest) → Keeps Inv (git_push host config r))
    unfolding git_fetch git_pull git_add git_commit git_push
    handlers-Keeps config = (
      λ r. opened-Keeps _ _ (λ root. run_git-Keeps root _),
      λ r.
          opened-Keeps _ _
            (λ root. then-Keeps Inv _ _ (ensure_clean_worktree-Keeps root) (run_git-Keeps root _)),
      λ r. then-Keeps Inv _ _ (lift-Keeps Inv _) (
          then-Keeps Inv _ _ (lift-Keeps Inv _) (
            then-Keeps Inv _ _ (lift-Keeps Inv _)
              (opened-Keeps _ _ (λ root. run_git-Keeps root _)))),
      λ r.
          then-Keeps Inv _ _ (lift-Keeps Inv _) (
            then-Keeps Inv _ _ (lift-Keeps Inv _)
              (opened-Keeps _ _ (λ root. run_git-Keeps root _))),
      λ r. then-Keeps Inv _ _ (lift-Keeps Inv _) (
          opened-Keeps _ _ (λ root. then-Keeps Inv _ _ (validate_branch-Keeps root r.branch) (
            then-Keeps Inv _ _ (ensure_remote_exists-Keeps root r.remote) (run_git-Keeps root _)))),
    )
