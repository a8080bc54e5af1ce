-- ===== src/GitMutation.antt =====
-- src/git_mutation.rs: fetch, pull, add, commit and push.
pub mod Handlers
pub mod Hardened
pub mod Names
mod Tests
use tux_bridge.Prelude.{
  ℕ, Str, codes, Bytes, Bool, true, false, not, ◌&&◌, ◌||◌, Option, none, some, List, [], ◌∷◌, ◌++◌,
  any, all, is_empty, length, len, ltb, ◌==◌, or_else, if◌then◌else◌, eq_str, trim, starts_with,
  is_ascii_alphanumeric,
}
use tux_bridge.Prelude.Dict.{get}
use tux_bridge.Error.{
  ApiError, ApiResult, ok, err, refuse_if, ok_or, map_err, says, text, quoted, shown, bad_request,
  conflict, forbidden, not_found, internal,
}
use tux_bridge.Error
use tux_bridge.Config.{Config, WorkspaceConfig}
use tux_bridge.Paths.{PathBuf, components, is_absolute, escapes, to_string}
use tux_bridge.Process.{Command, Output, Processes, Act, ◌>>=◌, ◌>>◌, lift, or_fail}

pub record GitActionRequest : Type 0 where
  pub workspace : Str

pub record GitAddRequest : Type 0 where
  pub workspace : Str
  pub paths : List Str

pub record GitCommitRequest : Type 0 where
  pub workspace : Str
  pub message : Str

pub record GitPushRequest : Type 0 where
  pub workspace : Str
  pub remote : Str
  pub branch : Str

-- `code().unwrap_or(-1)`: `none` is the -1.
pub record GitMutationResponse : Type 0 where
  pub stdout : Str
  pub stderr : Str
  pub exit_code : Option ℕ

unfoldable pub allow : Bool → Bool → Str → WorkspaceConfig → ApiResult WorkspaceConfig
allow write network name workspace =
    if write && not workspace.capabilities.git_write
    then err (forbidden (text "workspace " ∷ quoted name ∷ text " does not allow Git writes" ∷ []))
    else if network && not workspace.capabilities.git_network
    then err (
        forbidden
          (text "workspace " ∷ quoted name ∷ text " does not allow Git network operations" ∷ []))
    else ok workspace

unfoldable pub require_workspace : Config → Str → Bool → Bool → ApiResult WorkspaceConfig
unfolding allow
require_workspace config name write network = elim (get name config.workspaces) [
  | none ↦ err (not_found (text "workspace " ∷ quoted name ∷ text " is not configured" ∷ []))
  | some workspace ↦ allow write network name workspace
]

abbrev pub is_remote_char : ℕ → Bool
is_remote_char c = is_ascii_alphanumeric c || (c == b'.') || (c == b'_') || (c == b'-')

unfoldable pub validate_remote : Str → ApiResult (Unit {0})
validate_remote remote =
    refuse_if (is_empty remote || starts_with (codes "-") remote || not (all is_remote_char remote))
      (bad_request (says "invalid remote name"))

unfoldable pub validate_repo_path : Str → ApiResult (Unit {0})
validate_repo_path raw =
    if is_empty raw
    then err (bad_request (says "Git path must not be empty"))
    else if is_absolute (components raw)
    then err (bad_request (says "Git paths must be relative"))
    else if any escapes (components raw)
    then err (bad_request (says "Git path traversal is not allowed"))
    else ok tt

-- `for path in &request.paths { validate_repo_path(path)?; }`
unfoldable pub validate_repo_paths : List Str → ApiResult (Unit {0})
unfolding validate_repo_path
validate_repo_paths [] = ok tt
validate_repo_paths (path ∷ paths) =
    let rest = validate_repo_paths paths in
    elim (validate_repo_path path) [ ok done ↦ rest | err e ↦ err e ]

-- The arguments in front of every command: no hooks, no file-system monitor, in the root.
abbrev pub hardened : PathBuf → List Str → List Str
hardened root args =
    codes "-c"
    ∷ codes "core.hooksPath=/dev/null"
    ∷ codes "-c"
    ∷ codes "core.fsmonitor=false"
    ∷ codes "-C"
    ∷ to_string root
    ∷ args

abbrev pub git_command : PathBuf → List Str → Command
git_command root args = record {
  program = codes "git";
  env = (codes "GIT_TERMINAL_PROMPT", codes "0") ∷ [];
  args = hardened root args;
}

module _ (host : Processes) where
  unfoldable pub judge_output : Output → ApiResult Output
  judge_output output =
      let stderr = trim (host.from_utf8_lossy output.stderr) in
      if output.success
      then ok output
      else err
          (bad_request (if is_empty stderr then says "git command failed" else shown stderr ∷ []))

  unfoldable pub run_git_raw : PathBuf → List Str → Act host.World Output
  unfolding judge_output
  run_git_raw root args w =
      let (result, v) = host.output (git_command root args) w in
      elim result [
        | err e ↦ (err (internal (text "failed to execute git: " ∷ shown e.message ∷ [])), v)
        | ok output ↦ (judge_output output, v)
      ]

  unfoldable pub run_git : PathBuf → List Str → Act host.World GitMutationResponse
  unfolding run_git_raw
  run_git root args = do
    output ← run_git_raw root args
    lift (
        ok (record {
          stdout = host.from_utf8_lossy output.stdout;
          stderr = host.from_utf8_lossy output.stderr;
          exit_code = output.code;
        }))

  unfoldable pub canonical_root : WorkspaceConfig → Act host.World PathBuf
  canonical_root workspace w = (
    map_err (λ e. internal (text "failed to resolve workspace root: " ∷ shown e.message ∷ []))
        (host.canonicalize (components workspace.root) w),
    w,
  )

  unfoldable pub ensure_git_repo : PathBuf → Act host.World (Unit {0})
  unfolding run_git_raw
  ensure_git_repo root = do
    result ← run_git_raw root (codes "rev-parse" ∷ codes "--is-inside-work-tree" ∷ [])
    lift (
        refuse_if (not (eq_str (trim (host.from_utf8_lossy result.stdout)) (codes "true")))
          (bad_request (says "workspace is not a Git work tree")))

  unfoldable pub ensure_clean_worktree : PathBuf → Act host.World (Unit {0})
  unfolding run_git_raw
  ensure_clean_worktree root = do
    result ← run_git_raw root (codes "status" ∷ codes "--porcelain=v1" ∷ [])
    lift (
        refuse_if (not (is_empty result.stdout)) (
          conflict (
            says
              "git pull requires a clean working tree; commit or otherwise resolve local changes first")))

  unfoldable pub validate_branch : PathBuf → Str → Act host.World (Unit {0})
  unfolding run_git_raw
  validate_branch root branch = do
    lift (
        refuse_if (is_empty (trim branch) || starts_with (codes "-") branch)
          (bad_request (says "invalid branch name")))
    formed ←
        or_fail (bad_request (says "invalid branch name"))
          (run_git_raw root (codes "check-ref-format" ∷ codes "--branch" ∷ branch ∷ []))
    present ← or_fail (bad_request (says "local branch does not exist")) (
        run_git_raw root (
          codes "show-ref"
          ∷ codes "--verify"
          ∷ codes "--quiet"
          ∷ (codes "refs/heads/" ++ branch)
          ∷ []))
    lift (ok tt)

  unfoldable pub ensure_remote_exists : PathBuf → Str → Act host.World (Unit {0})
  unfolding run_git_raw
  ensure_remote_exists root remote = do
    found ←
        or_fail (bad_request (text "Git remote " ∷ quoted remote ∷ text " does not exist" ∷ []))
          (run_git_raw root (codes "remote" ∷ codes "get-url" ∷ remote ∷ []))
    lift (ok tt)
