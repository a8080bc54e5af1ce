-- ===== src/Fs/Search.antt =====
-- The search of src/fs.rs: every occurrence of a text in the files below a path, up to a limit.
use tux_bridge.Prelude.{
  ℕ, zero, suc, ◌+◌, Str, from_utf8, Bool, true, false, not, ◌||◌, Option, some, none, List, [],
  ◌∷◌, ◌++◌, length, len, len_utf8, ltb, leb, clamp, or_else, is_empty, if◌then◌else◌, strip_prefix,
}
use tux_bridge.Prelude.Lines.{lines}
use tux_bridge.Error.{ApiResult, ok, err, ◌>>=◌, ◌>>◌, refuse_if, map_err, says, bad_request}
use tux_bridge.Config.{Config}
use tux_bridge.Paths.{PathBuf, relative_display}
use tux_bridge.Host.{Host, IoResult, Metadata, is_dir, is_file, is_symlink, map_io}
use tux_bridge.Fs.{
  default_max_results, hard_max_results, hard_max_read_bytes, SearchRequest, SearchMatch,
  SearchResponse,
}
use tux_bridge.Fs.Resolve.{readable_workspace, resolve_existing}

-- The columns, counted in bytes from 1, of the matches that do not overlap. `offset` is where the
-- rest of the line starts; each round shortens the rest, so its length is enough fuel.
unfoldable pub columns : ℕ → ℕ → Str → Str → List ℕ
columns zero offset query rest = []
columns (suc n) offset query [] = []
columns (suc n) offset query (c ∷ rest) = elim (strip_prefix query (c ∷ rest)) [
  | none ↦ columns n (offset + len_utf8 c) query rest
  | some after ↦ (offset + 1) ∷ columns n (offset + len query) query after
]

-- `matches.push(…)`, and whether the limit is reached.
unfoldable pub push_matches :
    ℕ → Str → ℕ → Str → List ℕ → List SearchMatch → Bool × List SearchMatch
push_matches limit path number line [] matches = (false, matches)
push_matches limit path number line (column ∷ rest) matches =
    let matches' =
      matches ++ record { path = path; line = number; column = column; preview = line } ∷ [] in
    let more = push_matches limit path number line rest matches' in
    if leb limit (length matches') then (true, matches') else more

unfoldable pub search_lines :
    ℕ → Str → Str → ℕ → List Str → List SearchMatch → Bool × List SearchMatch
unfolding push_matches columns
search_lines limit path query number [] matches = (false, matches)
search_lines limit path query number (line ∷ rest) matches =
    let found = push_matches limit path number line (columns (length line) 0 query line) matches in
    let more = search_lines limit path query (number + 1) rest found.1 in
    if found.0 then (true, found.1) else more

-- A search that has run out of fuel, or its answer.
abbrev pub Searched : Type 0
Searched = Option (ApiResult (Bool × List SearchMatch))

abbrev pub limit_of : SearchRequest → ℕ
limit_of request = clamp (or_else request.max_results default_max_results) 1 hard_max_results

unfoldable pub search_response : Searched → Option (ApiResult SearchResponse)
search_response none = none
search_response (some (err e)) = some (err e)
search_response (some (ok (truncated, matches))) =
    some (ok (record { matches = matches; truncated = truncated }))

module _ (host : Host) where
  -- A regular file that is not too large and is text.
  unfoldable pub search_file :
      PathBuf
      → PathBuf
      → Str
      → ℕ
      → Metadata
      → List SearchMatch
      → host.World
      → ApiResult (Bool × List SearchMatch)
  unfolding search_lines
  search_file root target query limit metadata matches w =
      if not (is_file metadata.kind) || ltb hard_max_read_bytes metadata.size
      then ok (false, matches)
      else map_err map_io (host.read target w) >>= λ bytes. elim (from_utf8 bytes) [
        | none ↦ ok (false, matches)
        | some content ↦
            ok (search_lines limit (relative_display root target) query 1 (lines content) matches)
      ]

  -- The loop over `read_dir`, with the recursive call as an argument.
  unfoldable pub search_entries :
      (PathBuf → List SearchMatch → Searched)
      → List (IoResult PathBuf)
      → List SearchMatch
      → Searched
  search_entries search [] matches = some (ok (false, matches))
  search_entries search (err e ∷ rest) matches = some (err (map_io e))
  search_entries search (ok entry ∷ rest) matches = elim (search entry matches) [
    | none ↦ none
    | some found ↦ elim found [
      | err e ↦ some (err e)
      | ok (done, matches') ↦ elim done [
        | true ↦ some (ok (true, matches'))
        | false ↦ search_entries search rest matches'
      ]
    ]
  ]

  -- The fuel bounds the depth of the directories.
  unfoldable pub search_path :
      ℕ → PathBuf → Str → ℕ → host.World → PathBuf → List SearchMatch → Searched
  unfolding search_entries search_file
  search_path zero root query limit w target matches = none
  search_path (suc depth) root query limit w target matches =
      elim (host.symlink_metadata target w) [
        | err e ↦ some (err (map_io e))
        | ok metadata ↦ elim (is_symlink metadata.kind) [
          | true ↦ some (ok (false, matches))
          | false ↦ elim (is_dir metadata.kind) [
            | false ↦ some (search_file root target query limit metadata matches w)
            | true ↦ elim (host.read_dir target w) [
              | err e ↦ some (err (map_io e))
              | ok found ↦ search_entries (search_path depth root query limit w) found matches
            ]
          ]
        ]
      ]

  -- The checks of `search_files` before the search.
  unfoldable pub prepare_search :
      Config → SearchRequest → host.World → ApiResult (PathBuf × PathBuf)
  unfolding readable_workspace resolve_existing
  prepare_search config request w = do
    refuse_if (is_empty request.query) (bad_request (says "query must not be empty"))
    workspace ← readable_workspace config request.workspace
    resolve_existing host workspace request.path w

  unfoldable pub search_files :
      ℕ → Config → SearchRequest → host.World → Option (ApiResult SearchResponse)
  unfolding prepare_search search_path search_response
  search_files depth config request w = elim (prepare_search config request w) [
    | err e ↦ some (err e)
    | ok (root, target) ↦
        search_response (search_path depth root request.query (limit_of request) w target [])
  ]
