-- ===== src/Git/Tests.antt =====
-- The parsers of src/git.rs at the repository's own examples, and the theorem of ReadOnly on a host
-- that keeps a log.
use tux_bridge.Prelude.{
  ◌≡◌, refl, Str, codes, as_bytes, true, none, some, List, [], ◌∷◌, All, texts,
}
use tux_bridge.Error.{ok}
use tux_bridge.Config.{default_config}
use tux_bridge.Paths.{PathBuf}
use tux_bridge.Process.{Command, Processes}
use tux_bridge.Process.Keeps.{Keeps}
use tux_bridge.Prelude.Lines.{lines, lines_from}
use tux_bridge.Git.Parse.{parse_branch_header, parse_status_line, parse_usize, split_once_from}
use tux_bridge.Git.Handlers.{
  GitRequest, LogRequest, DiffRequest, git_status, git_branches, git_log, git_diff,
}
use tux_bridge.Git.ReadOnly.{IsReading, IsGitAt, ReadsKeep, handlers-ReadsKeep}

parses_tracking_counts :
    parse_branch_header (codes "## main...origin/main [ahead 2, behind 3]")
    ≡ (codes "main", some (codes "origin/main"), 2, 3)
unfolding parse_branch_header parse_usize split_once_from texts
parses_tracking_counts = refl

parses_status_change :
    parse_status_line (codes " M src/main.rs")
    ≡ some (some (record { index = 32; worktree = b'M'; path = codes "src/main.rs" }))
unfolding parse_status_line texts
parses_status_change = refl

-- A slice from inside a character panics.
panics_inside : parse_status_line (b'M' ∷ 32 ∷ 233 ∷ []) ≡ none
unfolding parse_status_line texts
panics_inside = refl

splits_lines : lines (codes "a\r\nb\n\nc") ≡ codes "a" ∷ codes "b" ∷ [] ∷ codes "c" ∷ []
unfolding lines_from texts
splits_lines = refl

abbrev recorder : Processes
recorder = record {
  World = List Command;
  canonicalize = λ path w. ok path;
  output = λ command w. (
    ok (record { success = true; code = some 0; stdout = as_bytes (codes "true"); stderr = [] }),
    command ∷ w,
  );
  from_utf8_lossy = λ bytes. bytes;
}

IsReadingGit : Command → Type 0
IsReadingGit command =
    (root : PathBuf) × (args : List Str) × IsReading args × IsGitAt root args command

reads_keep : ReadsKeep recorder (All IsReadingGit)
unfolding ReadsKeep IsReadingGit
reads_keep root args command w r c h = ((root, args, r, c), h)

handlers-ReadsKeep_example :
    ((r : GitRequest) → Keeps (All IsReadingGit) (git_status recorder default_config r))
    × ((r : GitRequest) → Keeps (All IsReadingGit) (git_branches recorder default_config r))
    × ((r : LogRequest) → Keeps (All IsReadingGit) (git_log recorder default_config r))
    × ((r : DiffRequest) → Keeps (All IsReadingGit) (git_diff recorder default_config r))
handlers-ReadsKeep_example =
    handlers-ReadsKeep recorder (All IsReadingGit) reads_keep default_config
