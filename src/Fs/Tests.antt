-- ===== src/Fs/Tests.antt =====
-- A workspace on the host of Host/Memory.
use tux_bridge.Prelude.{
  ℕ, ◌+◌, ◌≡◌, ◌≤◌, refl, Str, Bytes, codes, as_bytes, true, false, none, some, [], ◌∷◌, ◌++◌,
  texts, arith, All, Bool-cases, inl, inr, subst, if◌then◌else◌, leb, length,
}
use tux_bridge.Prelude.Lines.{lines_from}
use tux_bridge.Error.{ApiResult, ok, err, ok_inj}
use tux_bridge.Config.{Config, WorkspaceConfig, default_config}
use tux_bridge.Paths.{
  PathBuf, root_dir, normal, components, is_absolute, is_under, join, relative_display, strip_root,
  to_string,
}
use tux_bridge.Host.{Host, other_kind}
use tux_bridge.Host.Memory.{same_path, the_directory, Files, memory, put, look, canonical}
use tux_bridge.Fs.{ReadSpec, ReadResponse, SearchRequest, SearchResponse}
use tux_bridge.Fs.Resolve.{readable_workspace, resolve_existing}
use tux_bridge.Fs.Read.{read_one, validate_range, respond}
use tux_bridge.Fs.Search.{limit_of, search_files, search_path, search_response}
use tux_bridge.Fs.Window.{IsReading, IsResolved, IsInBounds, read_one-IsReading}
use tux_bridge.Fs.Matches.{IsFound, search_files-IsFound}
use tux_bridge.Fs.Termination.{IsEntryOf, ListsBelow, RefusesLong, search_files_ends}

abbrev workspace : WorkspaceConfig
workspace = record {
  root = codes "/srv";
  capabilities = record {
    fs_read = true;
    fs_write = false;
    commands = false;
    git_read = false;
    git_write = false;
    git_network = false;
  };
}

abbrev config : Config
config = record default_config { workspaces = (codes "w", workspace) ∷ [] }

-- Three lines: "one", "twö" and "öo".
abbrev disk : Files
disk =
    put (root_dir ∷ normal (codes "srv") ∷ normal (codes "a") ∷ [])
      (some (as_bytes (codes "one" ++ 10 ∷ codes "tw" ++ 246 ∷ 10 ∷ 246 ∷ codes "o"))) (λ p. none)

gate : Unit {0}
unfolding texts put look canonical components join relative_display strip_root to_string is_absolute
    is_under readable_workspace resolve_existing read_one validate_range respond search_files
    search_path search_response lines_from
gate = tt

abbrev spec : ReadSpec
spec = record { path = codes "a"; start_line = some 2; end_line = some 7; max_bytes = some 9 }

abbrev reply : ReadResponse
reply = record {
  path = codes "a";
  content = codes "tw" ++ 246 ∷ [];
  size = 12;
  sha256 = as_bytes (codes "tw" ++ 246 ∷ []);
  truncated = true;
  start_line = 2;
  end_line = 2;
}

reads_lines : read_one memory workspace spec disk ≡ ok reply
unfolding gate
reads_lines = refl

read_one-IsReading_example :
    (root : PathBuf) × (target : PathBuf) × (file : Bytes) × (content : Str) × IsResolved memory
      workspace spec.path disk root target
    × (reply.path ≡ relative_display root target)
    × IsInBounds spec content
    × IsReading memory spec disk target file content reply
read_one-IsReading_example = read_one-IsReading memory workspace spec disk reply reads_lines

abbrev query : SearchRequest
query = record { workspace = codes "w"; path = codes "a"; query = codes "o"; max_results = some 2 }

abbrev found : SearchResponse
found = record {
  matches =
      record { path = codes "a"; line = 1; column = 1; preview = codes "one" }
      ∷ record { path = codes "a"; line = 3; column = 3; preview = 246 ∷ codes "o" }
      ∷ [];
  truncated = true;
}

finds : search_files memory 1 config query disk ≡ some (ok found)
unfolding gate
finds = refl

search_files-IsFound_example :
    IsFound (limit_of query) (codes "o") (true, found.matches)
    × (1 ≤ limit_of query)
    × (limit_of query ≤ 1000)
search_files-IsFound_example = search_files-IsFound memory 1 config query disk found finds

-- A host with one directory, which has one file; it refuses paths of more than three parts.
abbrev nested : Host
nested = record memory {
  symlink_metadata = λ path w.
      if leb (length path) 3
      then memory.symlink_metadata path w
      else err (record { kind = other_kind; message = [] });
  read_dir = λ path w.
      ok (if same_path path the_directory then ok (path ++ normal (codes "a") ∷ []) ∷ [] else []);
}

nested-ListsBelow : ListsBelow nested disk
unfolding ListsBelow
nested-ListsBelow path entries e = elim (Bool-cases (same_path path the_directory)) [
  | inl t ↦ subst (All (IsEntryOf path)) (ok_inj refl (rw t at e)) ((codes "a", refl), tt)
  | inr f ↦ subst (All (IsEntryOf path)) (ok_inj refl (rw f at e)) tt
]

nested-RefusesLong : RefusesLong nested 3 disk
unfolding RefusesLong
nested-RefusesLong path metadata e = elim (Bool-cases (leb (length path) 3)) [
  | inl t ↦ ground arith
  | inr f ↦ absurd (ground arith)
]

search_files_ends_example :
    (found : ApiResult SearchResponse) × ((more : ℕ)
      → search_files nested (3 + 2 + more) config (record query { path = codes "." }) disk
        ≡ some found)
search_files_ends_example =
    search_files_ends nested 3 config (record query { path = codes "." }) disk nested-ListsBelow
      nested-RefusesLong
