-- ===== src/Fs/Read.antt =====
-- The handlers of src/fs.rs that list, stat and read.
use tux_bridge.Prelude.{
  ℕ, ◌+◌, ◌-◌, Str, decode, as_bytes, Bool, true, false, not, ◌||◌, Option, some, none, List, [],
  ◌∷◌, length, take, drop, ltb, ◌==◌, clamp, or_else, is_empty, if◌then◌else◌,
}
use tux_bridge.Prelude.Lines.{lines, join_lines}
use tux_bridge.Prelude.Sort.{sort_by}
use Prim.Native.Nat.{min, max}
use tux_bridge.Error.{
  ApiResult, ok, err, ◌>>=◌, ◌>>◌, refuse_if, map_err, says, bad_request, display,
}
use tux_bridge.Config.{Config, WorkspaceConfig}
use tux_bridge.Paths.{PathBuf, file_name, relative_display}
use tux_bridge.Host.{Host, IoResult, is_dir, is_file, map_io}
use tux_bridge.Excerpt.{text_up_to}
use tux_bridge.Fs.{
  default_max_read_bytes, hard_max_read_bytes, PathRequest, ReadRequest, ReadSpec, BatchReadRequest,
  DirectoryEntry, StatResponse, ReadResponse, BatchReadResult,
}
use tux_bridge.Fs.Resolve.{readable_workspace, resolve_existing}

unfoldable pub is_zero : Option ℕ → Bool
is_zero none = false
is_zero (some n) = n == 0

-- The tests of the two line numbers.
unfoldable pub validate_range : Option ℕ → Option ℕ → ApiResult (Unit {0})
unfolding is_zero
validate_range (some start) (some end) =
    refuse_if (start == 0 || end == 0 || ltb end start) (bad_request (says "invalid line range"))
validate_range none end = refuse_if (is_zero end) (bad_request (says "line numbers are 1-based"))
validate_range (some start) none =
    refuse_if (start == 0) (bad_request (says "line numbers are 1-based"))

-- `&items[low..high]`, where that does not panic.
abbrev pub slice {ℓ} : {A : Type ℓ} → ℕ → ℕ → List A → List A
slice low high items = take (high - low) (drop low items)

-- The lines from `start` to `end`, both counted from 1.
unfoldable pub select_lines : ℕ → ℕ → List Str → List Str
select_lines start end all_lines =
    if is_empty all_lines || ltb (length all_lines) start
    then []
    else slice (start - 1) (min end (length all_lines)) all_lines

unfoldable pub last_line : Option ℕ → List Str → ℕ
last_line end all_lines = or_else end (max (length all_lines) 1)

module _ (host : Host) where
  -- The loop over `read_dir`.
  unfoldable pub entries :
      PathBuf → List (IoResult PathBuf) → host.World → ApiResult (List DirectoryEntry)
  entries root [] w = ok []
  entries root (found ∷ rest) w =
      let others = entries root rest w in
      map_err map_io found >>= λ path. map_err map_io (host.symlink_metadata path w) >>= λ metadata.
      others >>= λ listed. ok (
        record {
          name = or_else (file_name path) [];
          path = relative_display root path;
          kind = metadata.kind;
          size = metadata.size;
        }
        ∷ listed)

  unfoldable pub list_directory :
      Config → PathRequest → host.World → ApiResult (List DirectoryEntry)
  unfolding readable_workspace resolve_existing entries
  list_directory config request w = do
    workspace ← readable_workspace config request.workspace
    (root, target) ← resolve_existing host workspace request.path w
    metadata ← map_err map_io (host.metadata target w)
    refuse_if (not (is_dir metadata.kind)) (bad_request (says "path is not a directory"))
    found ← map_err map_io (host.read_dir target w)
    listed ← entries root found w
    ok (sort_by (λ entry. entry.name) listed)

  unfoldable pub stat_path : Config → PathRequest → host.World → ApiResult StatResponse
  unfolding readable_workspace resolve_existing
  stat_path config request w = do
    workspace ← readable_workspace config request.workspace
    (root, target) ← resolve_existing host workspace request.path w
    metadata ← map_err map_io (host.symlink_metadata target w)
    ok (record {
      path = relative_display root target;
      kind = metadata.kind;
      size = metadata.size;
      readonly = metadata.readonly;
    })

  -- The answer for the text that was read.
  unfoldable pub respond : ReadSpec → PathBuf → PathBuf → ℕ → Bool → Str → ReadResponse
  unfolding select_lines last_line join_lines
  respond spec root target size truncated content =
      let all_lines = lines content in
      let start = or_else spec.start_line 1 in
      let end = last_line spec.end_line all_lines in
      let selected = join_lines (select_lines start end all_lines) in
      record {
        path = relative_display root target;
        content = selected;
        size = size;
        sha256 = host.sha256 (as_bytes selected);
        truncated = truncated;
        start_line = start;
        end_line = if is_empty selected then start - 1 else min end (length all_lines);
      }

  unfoldable pub read_one : WorkspaceConfig → ReadSpec → host.World → ApiResult ReadResponse
  unfolding validate_range resolve_existing text_up_to respond
  read_one workspace spec w = do
    validate_range spec.start_line spec.end_line
    (root, target) ← resolve_existing host workspace spec.path w
    metadata ← map_err map_io (host.metadata target w)
    refuse_if (not (is_file metadata.kind)) (bad_request (says "path is not a regular file"))
    let max_bytes = clamp (or_else spec.max_bytes default_max_read_bytes) 1 hard_max_read_bytes
    contents ← map_err map_io (host.read target w)
    let returned = take (max_bytes + 1) contents
    let truncated = ltb max_bytes (length returned)
    content ←
        text_up_to truncated (decode (if truncated then take max_bytes returned else returned))
    ok (respond spec root target metadata.size truncated content)

  unfoldable pub read_file : Config → ReadRequest → host.World → ApiResult ReadResponse
  unfolding readable_workspace read_one
  read_file config request w = do
    workspace ← readable_workspace config request.workspace
    read_one workspace
        (record {
          path = request.path;
          start_line = request.start_line;
          end_line = request.end_line;
          max_bytes = request.max_bytes;
        })
        w

  -- One failure is reported in its place, and the rest are read.
  unfoldable pub read_result : ReadSpec → ApiResult ReadResponse → BatchReadResult
  read_result spec (ok result) = record {
    path = spec.path;
    ok = true;
    result = some result;
    error = none;
  }
  read_result spec (err error) = record {
    path = spec.path;
    ok = false;
    result = none;
    error = some (display error);
  }

  unfoldable pub read_all : WorkspaceConfig → List ReadSpec → host.World → List BatchReadResult
  unfolding read_one read_result
  read_all workspace [] w = []
  read_all workspace (spec ∷ files) w =
      read_result spec (read_one workspace spec w) ∷ read_all workspace files w

  unfoldable pub read_files :
      Config → BatchReadRequest → host.World → ApiResult (List BatchReadResult)
  unfolding readable_workspace read_all
  read_files config request w = do
    workspace ← readable_workspace config request.workspace
    ok (read_all workspace request.files w)
