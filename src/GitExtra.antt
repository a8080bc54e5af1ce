-- ===== src/GitExtra.antt =====
-- src/git_extra.rs: the head, the remotes and the stashes of a repository.
pub mod Bounds
mod Tests
use tux_bridge.Prelude.{
  ℕ, zero, suc, ◌+◌, Str, codes, Bytes, Bool, true, false, not, Option, none, some, List, [], ◌∷◌,
  is_empty, take, if◌then◌else◌, eq_str, trim,
}
use tux_bridge.Error.{ApiResult, ok, err, refuse_if, says, text, shown, bad_request, internal}
use tux_bridge.Config.{Config}
use tux_bridge.Paths.{PathBuf, to_string}
use tux_bridge.Process.{Command, Output, Processes, Act, ◌>>=◌, ◌>>◌, lift}
use tux_bridge.Prelude.Lines.{lines, lines_from}
use tux_bridge.Git.Parse.{split_once}
use tux_bridge.Git.Handlers.{git_read_workspace, canonical_root}

pub record GitExtraRequest : Type 0 where
  pub workspace : Str

pub record GitHeadInfo : Type 0 where
  pub branch : Option Str
  pub head : Option Str
  pub upstream : Option Str
  pub repository_root : Str

pub record GitRemoteInfo : Type 0 where
  pub name : Str
  pub fetch_url : Option Str
  pub push_url : Option Str

pub record GitStashEntry : Type 0 where
  pub index : ℕ
  pub reference : Str
  pub subject : Str

abbrev pub prompt_free : PathBuf → List Str → Command
prompt_free root args = record {
  program = codes "git";
  env = (codes "GIT_TERMINAL_PROMPT", codes "0") ∷ [];
  args = codes "-C" ∷ to_string root ∷ args;
}

-- `lines().filter(…).take(128)`
unfoldable pub non_blank : List Str → List Str
non_blank [] = []
non_blank (line ∷ rest) =
    let others = non_blank rest in if is_empty (trim line) then others else line ∷ others

-- `enumerate().filter_map(…)`: a line without a tab has a number but no entry.
unfoldable pub stash_entries : ℕ → List Str → List GitStashEntry
stash_entries index [] = []
stash_entries index (line ∷ rest) =
    let others = stash_entries (index + 1) rest in
    elim (split_once (9 ∷ []) line) [
      | none ↦ others
      | some parts ↦ record { index = index; reference = parts.0; subject = parts.1 } ∷ others
    ]

module _ (host : Processes) where
  unfoldable pub judge_stdout : Output → ApiResult Str
  judge_stdout output =
      let stderr = trim (host.from_utf8_lossy output.stderr) in
      if output.success
      then ok (host.from_utf8_lossy (take 2097152 output.stdout))
      else err
          (bad_request (if is_empty stderr then says "git command failed" else shown stderr ∷ []))

  unfoldable pub run_git : PathBuf → List Str → Act host.World Str
  unfolding judge_stdout
  run_git root args w =
      let (result, v) = host.output (prompt_free root args) w in
      elim result [
        | err e ↦ (err (internal (text "failed to execute git: " ∷ shown e.message ∷ [])), v)
        | ok output ↦ (judge_stdout output, v)
      ]

  -- It never fails: a failure is `none`.
  unfoldable pub optional_git : PathBuf → List Str → Act host.World (Option Str)
  unfolding run_git
  optional_git root args w =
      let (result, v) = run_git root args w in
      elim result [
        | err e ↦ (ok none, v)
        | ok value ↦ (ok (if is_empty (trim value) then none else some (trim value)), v)
      ]

  unfoldable pub ensure_git_repo : PathBuf → Act host.World (Unit {0})
  ensure_git_repo root = do
    result ← run_git root (codes "rev-parse" ∷ codes "--is-inside-work-tree" ∷ [])
    lift (
        refuse_if (not (eq_str (trim result) (codes "true")))
          (bad_request (says "workspace is not a Git work tree")))

  unfoldable pub git_root : Config → Str → Act host.World PathBuf
  git_root config name = do
    workspace ← lift (git_read_workspace config name)
    canonical_root host workspace

  unfoldable pub remote_infos : PathBuf → List Str → Act host.World (List GitRemoteInfo)
  remote_infos root [] = lift (ok [])
  remote_infos root (name ∷ names) = do
    fetch_url ← optional_git root (codes "remote" ∷ codes "get-url" ∷ name ∷ [])
    push_url ← optional_git root (codes "remote" ∷ codes "get-url" ∷ codes "--push" ∷ name ∷ [])
    rest ← remote_infos root names
    lift (ok (record { name = name; fetch_url = fetch_url; push_url = push_url } ∷ rest))

  unfoldable pub git_head : Config → GitExtraRequest → Act host.World GitHeadInfo
  git_head config request = do
    root ← git_root config request.workspace
    ensure_git_repo root
    branch ←
        optional_git root
          (codes "symbolic-ref" ∷ codes "--quiet" ∷ codes "--short" ∷ codes "HEAD" ∷ [])
    head ← optional_git root (codes "rev-parse" ∷ codes "HEAD" ∷ [])
    upstream ←
        optional_git root (codes "rev-parse" ∷ codes "--abbrev-ref" ∷ codes "@{upstream}" ∷ [])
    lift (
        ok (record {
          branch = branch;
          head = head;
          upstream = upstream;
          repository_root = to_string root;
        }))

  unfoldable pub git_remotes : Config → GitExtraRequest → Act host.World (List GitRemoteInfo)
  git_remotes config request = do
    root ← git_root config request.workspace
    ensure_git_repo root
    names ← run_git root (codes "remote" ∷ [])
    remote_infos root (take 128 (non_blank (lines names)))

  unfoldable pub git_stashes : Config → GitExtraRequest → Act host.World (List GitStashEntry)
  git_stashes config request = do
    root ← git_root config request.workspace
    ensure_git_repo root
    output ← run_git root (codes "stash" ∷ codes "list" ∷ codes "--format=%gd%x09%gs" ∷ [])
    lift (ok (stash_entries 0 (take 200 (lines output))))
