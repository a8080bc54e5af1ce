-- ===== src/Git/ReadOnly.antt =====
-- The commands that the handlers of src/git.rs run.
use tux_bridge.Prelude.{
  ℕ, ◌≤◌, ◌≡◌, refl, inl, inr, Str, Bytes, codes, Bool, true, false, Option, none, some, List, [],
  ◌∷◌, arith, or_else, clamp, Bool-cases, starts_with, any, eq_str, split,
}
use tux_bridge.Error.{Result-cases}
use tux_bridge.Config.{Config, WorkspaceConfig}
use tux_bridge.Paths.{PathBuf, to_string}
use tux_bridge.Process.{Command, Processes, Act, ◌>>=◌, lift}
use tux_bridge.Process.Keeps.{Keeps, bind-Keeps, then-Keeps, lift-Keeps}
use tux_bridge.Git.Parse.{GitChange}
use tux_bridge.Git.Handlers.{
  GitRequest, LogRequest, DiffRequest, git_at, diff_args, show_digits, leaves_workspace,
  diff_path_args, run_git_bytes, run_git, run_git_optional, canonical_root, ensure_git_repo,
  open_repo, parse_status, answer_status, git_status, git_branches, git_log, git_diff,
}

-- What may follow the options of a diff: nothing, or a path after `--` that is not absolute and has
-- no part "..".
pub data IsRest : List Str → Type 0 where
  everything : IsRest []
  one_path :
      (path : Str)
      → starts_with (codes "/") path ≡ false
      → any (λ part. eq_str part (codes "..")) (split b'/' path) ≡ false
      → IsRest (codes "--" ∷ path ∷ [])

-- The argument lists that only read, written out: at most 200 log entries are asked for, and no diff
-- runs an external program.
pub data IsReading : List Str → Type 0 where
  work_tree : IsReading (codes "rev-parse" ∷ codes "--is-inside-work-tree" ∷ [])
  head : IsReading (codes "rev-parse" ∷ codes "HEAD" ∷ [])
  status : IsReading (codes "status" ∷ codes "--porcelain=v1" ∷ codes "--branch" ∷ [])
  refs : IsReading (
      codes "for-each-ref"
      ∷ codes "--format=%(refname:short)%09%(objectname)%09%(upstream:short)%09%(HEAD)"
      ∷ codes "refs/heads"
      ∷ [])
  log :
      (limit : ℕ)
      → 1 ≤ limit
      → limit ≤ 200
      → IsReading (
          codes "log"
          ∷ (b'-' ∷ show_digits 20 limit)
          ∷ codes "--date=iso-strict"
          ∷ codes "--format=%H%x09%an%x09%aI%x09%s"
          ∷ [])
  diff :
      (rest : List Str)
      → IsRest rest
      → IsReading (codes "diff" ∷ codes "--no-ext-diff" ∷ codes "--no-color" ∷ rest)
  diff_cached :
      (rest : List Str)
      → IsRest rest
      → IsReading
          (codes "diff" ∷ codes "--no-ext-diff" ∷ codes "--no-color" ∷ codes "--cached" ∷ rest)

-- The program is `git` in `root`.
pub record IsGitAt (root : PathBuf) (args : List Str) (command : Command) : Type 0 where
  pub is_git : command.program ≡ codes "git"
  pub no_env : command.env ≡ []
  pub in_root : command.args ≡ codes "-C" ∷ to_string root ∷ args

is_git_at : (root : PathBuf) (args : List Str) → IsGitAt root args (git_at root args)
is_git_at root args = record { is_git = refl; no_env = refl; in_root = refl }

-- The tests of `git_diff` on a path are those of `IsRest`.
stays : (path : Str) → leaves_workspace path ≡ false → IsRest (codes "--" ∷ path ∷ [])
stays path h = one_path path (ground arith) (ground arith)

diff_args-IsReading :
    (staged : Bool) (rest : List Str) → IsRest rest → IsReading (diff_args staged rest)
diff_args-IsReading true rest r = diff_cached rest r
diff_args-IsReading false rest r = diff rest r

module _ (host : Processes) (Inv : host.World → Type 0) where
  -- Every reading git command keeps the invariant.
  unfoldable pub ReadsKeep : Type 0
  ReadsKeep =
      (root : PathBuf) (args : List Str) (command : Command) (w : host.World)
      → IsReading args
      → IsGitAt root args command
      → Inv w
      → Inv (host.output command w).1

  module _ (keeps : ReadsKeep) where
    run_git_bytes-Keeps :
        (root : PathBuf) (args : List Str)
        → IsReading args
        → Keeps Inv (run_git_bytes host root args)
    unfolding Keeps run_git_bytes ReadsKeep
    run_git_bytes-Keeps root args r w i = elim (Result-cases (host.output (git_at root args) w).0) [
      | inl (a, p) ↦ rw (p, run_git_bytes) (keeps root args _ w r (is_git_at root args) i)
      | inr (x, p) ↦ rw (p, run_git_bytes) (keeps root args _ w r (is_git_at root args) i)
    ]

    run_git-Keeps :
        (root : PathBuf) (args : List Str) → IsReading args → Keeps Inv (run_git host root args)
    unfolding run_git
    run_git-Keeps root args r =
        bind-Keeps Inv _ _ (run_git_bytes-Keeps root args r) (λ output. lift-Keeps Inv _)

    run_git_optional-Keeps :
        (root : PathBuf) (args : List Str)
        → IsReading args
        → Keeps Inv (run_git_optional host root args)
    unfolding Keeps run_git_optional
    run_git_optional-Keeps root args r w i = elim (Result-cases (run_git host root args w).0) [
      | inl (a, p) ↦ rw (p, run_git_optional) (run_git-Keeps root args r w i)
      | inr (x, p) ↦ rw (p, run_git_optional) (run_git-Keeps root args r w i)
    ]

    canonical_root-Keeps : (workspace : WorkspaceConfig) → Keeps Inv (canonical_root host workspace)
    unfolding Keeps canonical_root
    canonical_root-Keeps workspace w i = i

    ensure_git_repo-Keeps : (root : PathBuf) → Keeps Inv (ensure_git_repo host root)
    unfolding Keeps ensure_git_repo ReadsKeep
    ensure_git_repo-Keeps root w i =
        elim (Result-cases
          (host.output (git_at root (codes "rev-parse" ∷ codes "--is-inside-work-tree" ∷ []))
            w).0) [
              | inl (a, p) ↦
                  rw (p, ensure_git_repo) (keeps root _ _ w work_tree (is_git_at root _) i)
              | inr (x, p) ↦
                  rw (p, ensure_git_repo) (keeps root _ _ w work_tree (is_git_at root _) i)
            ]

    open_repo-Keeps : (config : Config) (name : Str) → Keeps Inv (open_repo host config name)
    unfolding open_repo
    open_repo-Keeps config name = bind-Keeps Inv _ _ (lift-Keeps Inv _) (λ workspace.
        bind-Keeps Inv _ _ (canonical_root-Keeps workspace)
          (λ root. then-Keeps Inv _ _ (ensure_git_repo-Keeps root) (lift-Keeps Inv _)))

    diff-Keeps :
        {A : Type 0} (root : PathBuf) (staged : Bool) (path : Option Str)
        (k : Bytes → Act host.World A)
        → ((b : Bytes) → Keeps Inv (k b))
        → Keeps Inv (
            lift (diff_path_args path) >>= λ rest.
            run_git_bytes host root (diff_args staged rest) >>= k)
    unfolding diff_path_args lift Keeps ◌>>=◌
    diff-Keeps root staged none k h =
        bind-Keeps Inv _ k (run_git_bytes-Keeps root _ (diff_args-IsReading staged [] everything)) h
    diff-Keeps root staged (some path) k h = elim (Bool-cases (leaves_workspace path)) [
      | inl t ↦ λ w i. rw t i
      | inr f ↦ rw f (
          bind-Keeps Inv _ k
            (run_git_bytes-Keeps root _ (diff_args-IsReading staged _ (stays path f))) h)
    ]

    answer_status-Keeps :
        (config : Config) (root : PathBuf) (parsed : Option (Str × List GitChange))
        → Keeps Inv (answer_status host config root parsed)
    unfolding answer_status
    answer_status-Keeps config root none = lift-Keeps Inv _
    answer_status-Keeps config root (some (header, changes)) =
        bind-Keeps Inv _ _ (run_git_optional-Keeps root _ head) (λ h. lift-Keeps Inv _)

    -- Whatever is kept by `git -C root` with one of the argument lists of `IsReading`, the handlers
    -- `git_status`, `git_branches`, `git_log` and `git_diff` keep on every path, whatever the request
    -- says: they run no other command. The lists are `rev-parse`, `status`, `for-each-ref`, `log` of
    -- at most 200 entries, and `diff` without external programs, of at most one path inside the
    -- workspace.
    pub handlers-ReadsKeep :
        (config : Config)
        → ((r : GitRequest) → Keeps Inv (git_status host config r))
          × ((r : GitRequest) → Keeps Inv (git_branches host config r))
          × ((r : LogRequest) → Keeps Inv (git_log host config r))
          × ((r : DiffRequest) → Keeps Inv (git_diff host config r))
    unfolding git_status git_branches git_log git_diff
    handlers-ReadsKeep config = (
      λ r. bind-Keeps Inv _ _ (open_repo-Keeps config r.workspace) (λ root.
          bind-Keeps Inv _ _ (run_git-Keeps root _ status)
            (λ output. answer_status-Keeps config root (parse_status output))),
      λ r.
          bind-Keeps Inv _ _ (open_repo-Keeps config r.workspace)
            (λ root. bind-Keeps Inv _ _ (run_git-Keeps root _ refs) (λ output. lift-Keeps Inv _)),
      λ r. bind-Keeps Inv _ _ (open_repo-Keeps config r.workspace) (λ root.
          bind-Keeps Inv _ _
            (run_git-Keeps root _ (
              log (clamp (or_else r.limit 20) 1 200) (clamp_low (or_else r.limit 20))
                (clamp_high (or_else r.limit 20))))
            (λ output. lift-Keeps Inv _)),
      λ r.
          bind-Keeps Inv _ _ (open_repo-Keeps config r.workspace)
            (λ root. diff-Keeps root r.staged r.path _ (λ output. lift-Keeps Inv _)),
    )
      where
        clamp_low : (n : ℕ) → 1 ≤ clamp n 1 200
        clamp_low n = ground arith

        clamp_high : (n : ℕ) → clamp n 1 200 ≤ 200
        clamp_high n = ground arith
