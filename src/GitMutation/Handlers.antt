-- ===== src/GitMutation/Handlers.antt =====
-- The handlers of src/git_mutation.rs.
use tux_bridge.Prelude.{codes, true, false, [], ◌∷◌, ◌++◌, is_empty, length, len, ltb, trim}
use tux_bridge.Error.{refuse_if, says, bad_request}
use tux_bridge.Config.{Config}
use tux_bridge.Process.{Processes, Act, ◌>>=◌, ◌>>◌, lift}
use tux_bridge.GitMutation.{
  GitActionRequest, GitAddRequest, GitCommitRequest, GitPushRequest, GitMutationResponse,
  require_workspace, validate_remote, validate_repo_paths, run_git, canonical_root, ensure_git_repo,
  ensure_clean_worktree, validate_branch, ensure_remote_exists,
}

module _ (host : Processes) (config : Config) where
  unfoldable pub git_fetch : GitActionRequest → Act host.World GitMutationResponse
  git_fetch request = do
    workspace ← lift (require_workspace config request.workspace false true)
    root ← canonical_root host workspace
    ensure_git_repo host root
    run_git host root (codes "fetch" ∷ codes "--all" ∷ codes "--prune" ∷ [])

  unfoldable pub git_pull : GitActionRequest → Act host.World GitMutationResponse
  git_pull request = do
    workspace ← lift (require_workspace config request.workspace true true)
    root ← canonical_root host workspace
    ensure_git_repo host root
    ensure_clean_worktree host root
    run_git host root (codes "pull" ∷ codes "--ff-only" ∷ [])

  unfoldable pub git_add : GitAddRequest → Act host.World GitMutationResponse
  git_add request = do
    lift (refuse_if (is_empty request.paths) (bad_request (says "paths must not be empty")))
    lift (refuse_if (ltb 1024 (length request.paths)) (bad_request (says "too many Git paths")))
    lift (validate_repo_paths request.paths)
    workspace ← lift (require_workspace config request.workspace true false)
    root ← canonical_root host workspace
    ensure_git_repo host root
    run_git host root (codes "add" ∷ codes "--" ∷ request.paths)

  unfoldable pub git_commit : GitCommitRequest → Act host.World GitMutationResponse
  git_commit request = do
    lift (
        refuse_if (is_empty (trim request.message))
          (bad_request (says "commit message must not be empty")))
    lift (
        refuse_if (ltb 16384 (len request.message))
          (bad_request (says "commit message is too large")))
    workspace ← lift (require_workspace config request.workspace true false)
    root ← canonical_root host workspace
    ensure_git_repo host root
    run_git host root (codes "commit" ∷ codes "-m" ∷ request.message ∷ [])

  unfoldable pub git_push : GitPushRequest → Act host.World GitMutationResponse
  git_push request = do
    lift (validate_remote request.remote)
    workspace ← lift (require_workspace config request.workspace true true)
    root ← canonical_root host workspace
    ensure_git_repo host root
    validate_branch host root request.branch
    ensure_remote_exists host root request.remote
    run_git host root (
        codes "push"
        ∷ codes "--porcelain"
        ∷ codes "--"
        ∷ request.remote
        ∷ (request.branch ++ codes ":refs/heads/" ++ request.branch)
        ∷ [])
