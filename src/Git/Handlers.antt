-- ===== src/Git/Handlers.antt =====
-- The handlers of src/git.rs.
use tux_bridge.Prelude.{
  ℕ, zero, suc, ◌+◌, ◌/◌, ◌%◌, Str, codes, Bytes, from_utf8, Bool, true, false, not, ◌||◌, Option,
  none, some, List, [], ◌∷◌, ◌++◌, any, is_empty, length, take, ltb, or_else, clamp, if◌then◌else◌,
  eq_str, trim, starts_with, split,
}
use tux_bridge.Prelude.Dict.{get}
use tux_bridge.Error.{
  ApiResult, ok, err, refuse_if, ok_or, map_err, says, text, quoted, shown, bad_request, forbidden,
  not_found, internal,
}
use tux_bridge.Config.{Config, WorkspaceConfig}
use tux_bridge.Paths.{PathBuf, components, to_string}
use tux_bridge.Process.{Command, Output, Processes, Act, ◌>>=◌, ◌>>◌, lift}
use tux_bridge.Prelude.Lines.{lines}
use tux_bridge.Git.Parse.{GitChange, splitn, parse_branch_header, parse_status_line}

pub record GitRequest : Type 0 where
  pub workspace : Str

pub record LogRequest : Type 0 where
  pub workspace : Str
  pub limit : Option ℕ

pub record DiffRequest : Type 0 where
  pub workspace : Str
  pub staged : Bool
  pub path : Option Str
  pub max_bytes : Option ℕ

pub record GitStatusResponse : Type 0 where
  pub branch : Str
  pub head : Option Str
  pub upstream : Option Str
  pub ahead : ℕ
  pub behind : ℕ
  pub clean : Bool
  pub changes : List GitChange

pub record GitBranch : Type 0 where
  pub name : Str
  pub sha : Str
  pub upstream : Option Str
  pub current : Bool

pub record GitLogEntry : Type 0 where
  pub sha : Str
  pub author : Str
  pub authored_at : Str
  pub subject : Str

pub record GitDiffResponse : Type 0 where
  pub content : Str
  pub truncated : Bool

-- `filter_map` and `collect`
abbrev pub filter_map : {A : Type 0} → (Str → Option A) → List Str → List A
filter_map f [] = []
filter_map f (line ∷ rest) =
    let others = filter_map f rest in elim (f line) [ none ↦ others | some a ↦ a ∷ others ]

abbrev non_empty : Str → Option Str
non_empty s = if is_empty s then none else some s

-- The closures of `git_branches` and `git_log` on one line, split at tabs.
unfoldable pub branch_of : List Str → Option GitBranch
branch_of [] = none
branch_of (name ∷ []) = none
branch_of (name ∷ sha ∷ []) =
    some (record { name = name; sha = sha; upstream = none; current = false })
branch_of (name ∷ sha ∷ upstream ∷ []) =
    some (record { name = name; sha = sha; upstream = non_empty upstream; current = false })
branch_of (name ∷ sha ∷ upstream ∷ head ∷ rest) = some (record {
  name = name;
  sha = sha;
  upstream = non_empty upstream;
  current = eq_str (trim head) (codes "*");
})

unfoldable pub log_entry_of : List Str → Option GitLogEntry
log_entry_of (sha ∷ author ∷ authored_at ∷ subject ∷ rest) =
    some (record { sha = sha; author = author; authored_at = authored_at; subject = subject })
log_entry_of _ = none

unfoldable pub git_read_workspace : Config → Str → ApiResult WorkspaceConfig
git_read_workspace config name = elim (get name config.workspaces) [
  | none ↦ err (not_found (text "workspace " ∷ quoted name ∷ text " is not configured" ∷ []))
  | some workspace ↦
      if workspace.capabilities.git_read
      then ok workspace
      else err (forbidden (text "workspace " ∷ quoted name ∷ text " does not allow Git reads" ∷ []))
]

-- A path that stays within the workspace, as `git_diff` tests it.
abbrev pub leaves_workspace : Str → Bool
leaves_workspace path =
    starts_with (codes "/") path || any (λ s. eq_str s (codes "..")) (split b'/' path)

unfoldable pub diff_path_args : Option Str → ApiResult (List Str)
diff_path_args none = ok []
diff_path_args (some path) =
    if leaves_workspace path
    then err (bad_request (says "diff path must stay within the workspace"))
    else ok (codes "--" ∷ path ∷ [])

abbrev pub diff_args : Bool → List Str → List Str
diff_args staged rest =
    codes "diff"
    ∷ codes "--no-ext-diff"
    ∷ codes "--no-color"
    ∷ (if staged then codes "--cached" ∷ rest else rest)

abbrev pub git_at : PathBuf → List Str → Command
git_at root args = record {
  program = codes "git";
  env = [];
  args = codes "-C" ∷ to_string root ∷ args;
}

module _ (host : Processes) where
  unfoldable pub judge_output : Output → ApiResult Bytes
  judge_output output =
      let stderr = trim (host.from_utf8_lossy output.stderr) in
      if output.success
      then ok output.stdout
      else err
          (bad_request (if is_empty stderr then says "git command failed" else shown stderr ∷ []))

  unfoldable pub run_git_bytes : PathBuf → List Str → Act host.World Bytes
  unfolding judge_output
  run_git_bytes root args w =
      let (result, v) = host.output (git_at root args) w in
      elim result [
        | err e ↦ (err (internal (text "failed to execute git: " ∷ shown e.message ∷ [])), v)
        | ok output ↦ (judge_output output, v)
      ]

  unfoldable pub run_git : PathBuf → List Str → Act host.World Str
  unfolding run_git_bytes
  run_git root args = do
    output ← run_git_bytes root args
    lift (ok_or (from_utf8 output) (internal (says "git returned non-UTF-8 output")))

  -- It never fails: a failure is `none`.
  unfoldable pub run_git_optional : PathBuf → List Str → Act host.World (Option Str)
  unfolding run_git
  run_git_optional root args w =
      let (result, v) = run_git root args w in
      elim result [ err e ↦ (ok none, v) | ok value ↦ (ok (non_empty (trim value)), v) ]

  unfoldable pub canonical_root : WorkspaceConfig → Act host.World PathBuf
  canonical_root workspace w = (
    map_err (λ e. internal (text "failed to resolve workspace root: " ∷ shown e.message ∷ []))
        (host.canonicalize (components workspace.root) w),
    w,
  )

  unfoldable pub is_work_tree : Output → Bool
  is_work_tree output =
      if output.success
      then eq_str (trim (host.from_utf8_lossy output.stdout)) (codes "true")
      else false

  unfoldable pub ensure_git_repo : PathBuf → Act host.World (Unit {0})
  unfolding is_work_tree
  ensure_git_repo root w =
      let (result, v) =
        host.output (git_at root (codes "rev-parse" ∷ codes "--is-inside-work-tree" ∷ [])) w in
      elim result [
        | err e ↦ (err (internal (text "failed to execute git: " ∷ shown e.message ∷ [])), v)
        | ok output ↦ (
          refuse_if (not (is_work_tree output))
              (bad_request (says "workspace is not a Git work tree")),
          v,
        )
      ]

  -- The first three lines of every handler.
  unfoldable pub open_repo : Config → Str → Act host.World PathBuf
  open_repo config name = do
    workspace ← lift (git_read_workspace config name)
    root ← canonical_root workspace
    ensure_git_repo root
    lift (ok root)

-- `{limit}`; twenty digits hold every `usize`.
unfoldable pub show_digits : ℕ → ℕ → Str
show_digits zero n = []
show_digits (suc k) n = elim (ltb n 10) [
  | true ↦ (b'0' + n) ∷ []
  | false ↦ show_digits k (n / 10) ++ (b'0' + n % 10) ∷ []
]

abbrev pub log_args : ℕ → List Str
log_args limit =
    codes "log"
    ∷ (b'-' ∷ show_digits 20 limit)
    ∷ codes "--date=iso-strict"
    ∷ codes "--format=%H%x09%an%x09%aI%x09%s"
    ∷ []

abbrev pub ref_args : List Str
ref_args =
    codes "for-each-ref"
    ∷ codes "--format=%(refname:short)%09%(objectname)%09%(upstream:short)%09%(HEAD)"
    ∷ codes "refs/heads"
    ∷ []

abbrev pub status_args : List Str
status_args = codes "status" ∷ codes "--porcelain=v1" ∷ codes "--branch" ∷ []

-- The header is the first line, the changes are the rest.
unfoldable pub header_of : List Str → Str × List Str
header_of [] = (codes "## HEAD (no branch)", [])
header_of (header ∷ rest) = (header, rest)

-- `filter_map(parse_status_line)` and `collect`, with the panic of a line.
unfoldable pub parse_changes : List Str → Option (List GitChange)
parse_changes [] = some []
parse_changes (line ∷ rest) = elim (parse_status_line line) [
  | none ↦ none
  | some change ↦ elim (parse_changes rest) [
    | none ↦ none
    | some others ↦ elim change [ none ↦ some others | some c ↦ some (c ∷ others) ]
  ]
]

-- Header and changes of the status; `none` where a line panics.
unfoldable pub parse_status : Str → Option (Str × List GitChange)
unfolding header_of parse_changes
parse_status status =
    let (header, rest) = header_of (lines status) in
    elim (parse_changes rest) [ none ↦ none | some changes ↦ some (header, changes) ]

unfoldable pub status_response : Str → List GitChange → Option Str → GitStatusResponse
status_response header changes head =
    let (branch, upstream, ahead, behind) = parse_branch_header header in
    record {
      branch = branch;
      head = head;
      upstream = upstream;
      ahead = ahead;
      behind = behind;
      clean = is_empty changes;
      changes = changes;
    }

module _ (host : Processes) (config : Config) where
  -- What `git_status` does once the status is parsed.
  unfoldable pub answer_status :
      PathBuf → Option (Str × List GitChange) → Act host.World (Option GitStatusResponse)
  answer_status root none = lift (ok none)
  answer_status root (some (header, changes)) = do
    head ← run_git_optional host root (codes "rev-parse" ∷ codes "HEAD" ∷ [])
    lift (ok (some (status_response header changes head)))

  -- Success with `none` is the panic of `parse_status_line`.
  unfoldable pub git_status : GitRequest → Act host.World (Option GitStatusResponse)
  unfolding answer_status
  git_status request = do
    root ← open_repo host config request.workspace
    status ← run_git host root status_args
    answer_status root (parse_status status)

  unfoldable pub git_branches : GitRequest → Act host.World (List GitBranch)
  git_branches request = do
    root ← open_repo host config request.workspace
    output ← run_git host root ref_args
    lift (ok (filter_map (λ line. branch_of (splitn 4 (9 ∷ []) line)) (lines output)))

  unfoldable pub git_log : LogRequest → Act host.World (List GitLogEntry)
  git_log request = do
    root ← open_repo host config request.workspace
    output ← run_git host root (log_args (clamp (or_else request.limit 20) 1 200))
    lift (ok (filter_map (λ line. log_entry_of (splitn 4 (9 ∷ []) line)) (lines output)))

  unfoldable pub diff_response : ℕ → Bytes → GitDiffResponse
  diff_response max_bytes output = record {
    content =
        host.from_utf8_lossy
          (if ltb max_bytes (length output) then take max_bytes output else output);
    truncated = ltb max_bytes (length output);
  }

  unfoldable pub git_diff : DiffRequest → Act host.World GitDiffResponse
  git_diff request = do
    root ← open_repo host config request.workspace
    rest ← lift (diff_path_args request.path)
    output ← run_git_bytes host root (diff_args request.staged rest)
    lift (ok (diff_response (clamp (or_else request.max_bytes 1048576) 1 8388608) output))
