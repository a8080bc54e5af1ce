-- ===== src/Fs/Matches.antt =====
-- What `search_files` of src/fs.rs answers: occurrences of the query, up to the limit.
use tux_bridge.Prelude.{
  ℕ, zero, suc, ◌+◌, ◌≤◌, ◌<◌, ◌≡◌, refl, sym, ◌∙◌, ap, subst, ◌⊎◌, inl, inr, Str, Bytes, Bool,
  true, false, not, ◌||◌, some, none, List, [], ◌∷◌, ◌++◌, All, All-append, arith, Bool-cases,
  Option-cases, length, length-append, len, len_utf8, len-append, ltb, leb, strip_prefix, from_utf8,
  append_assoc,
}
use tux_bridge.Prelude.Lines.{lines}
use tux_bridge.Error.{ApiError, ApiResult, ok, err, ◌>>=◌, ok_inj}
use tux_bridge.Config.{Config}
use tux_bridge.Paths.{PathBuf, relative_display}
use tux_bridge.Host.{Host, IoResult, Metadata, is_dir, is_file, is_symlink}
use tux_bridge.Mutation.Replace.{strip_prefix-append}
use tux_bridge.Fs.{
  hard_max_results, hard_max_read_bytes, SearchRequest, SearchMatch, SearchResponse,
}
use tux_bridge.Fs.Search.{
  columns, push_matches, search_lines, search_file, search_entries, search_path, Searched, limit_of,
  prepare_search, search_response, search_files,
}

-- The query starts at a column of a line, counted in bytes from 1.
pub IsColumn : Str → Str → ℕ → Type 0
IsColumn line query column =
    (before : Str) × (after : Str) × (line ≡ before ++ (query ++ after)) × (column ≡ len before + 1)

columns-IsColumn :
    (n offset : ℕ) (query rest line seen : Str)
    → line ≡ seen ++ rest
    → offset ≡ len seen
    → All (IsColumn line query) (columns n offset query rest)
unfolding columns IsColumn len
columns-IsColumn zero offset query rest line seen h o = tt
columns-IsColumn (suc n) offset query [] line seen h o = tt
columns-IsColumn (suc n) offset query (c ∷ rest) line seen h o =
    elim (Option-cases (strip_prefix query (c ∷ rest))) [
      | inl e ↦
          rw (e, columns)
            (columns-IsColumn n (offset + len_utf8 c) query rest line (seen ++ c ∷ [])
              (h ∙ sym (append_assoc seen (c ∷ []) rest))
              (ground (arith, len-append seen (c ∷ []))))
      | inr (after, e) ↦
          let split = ap (λ t. seen ++ t) (strip_prefix-append query (c ∷ rest) after e) in
          rw (e, columns)
            (
              (seen, after, h ∙ split, omega arith),
              columns-IsColumn n (offset + len query) query after line (seen ++ query)
                  (h ∙ split ∙ sym (append_assoc seen query after))
                  (omega (arith, len-append seen query)),
            )
    ]

-- One match: the line it shows has the query at its column.
pub IsMatch : Str → SearchMatch → Type 0
IsMatch query found = IsColumn found.preview query found.column

-- What a search has found: below the limit when it goes on, as many as the limit when it is cut.
pub IsFound : ℕ → Str → Bool × List SearchMatch → Type 0
IsFound limit query (done, matches) =
    All (IsMatch query) matches
    × (((done ≡ false) × (length matches < limit)) ⊎ ((done ≡ true) × (length matches ≡ limit)))

push_matches-IsFound :
    (limit : ℕ) (path : Str) (number : ℕ) (query line : Str) (cols : List ℕ)
    (matches : List SearchMatch)
    → All (IsColumn line query) cols
    → All (IsMatch query) matches
    → length matches < limit
    → IsFound limit query (push_matches limit path number line cols matches)
unfolding push_matches IsFound IsMatch
push_matches-IsFound limit path number query line [] matches c h k = (h, inl (refl, k))
push_matches-IsFound limit path number query line (column ∷ cols) matches c h k =
    let found : SearchMatch = record {
      path = path;
      line = number;
      column = column;
      preview = line;
    } in
    let longer = length-append matches (found ∷ []) in
    let good = All-append (IsMatch query) matches (found ∷ []) h (c.0, tt) in
    elim (Bool-cases (leb limit (length (matches ++ found ∷ [])))) [
      | inl t ↦ rw t (good, inr (refl, ground arith))
      | inr f ↦ rw f (
          push_matches-IsFound limit path number query line cols (matches ++ found ∷ []) c.1 good
            (ground arith))
    ]

search_lines-IsFound :
    (limit : ℕ) (path query : Str) (number : ℕ) (all_lines : List Str) (matches : List SearchMatch)
    → All (IsMatch query) matches
    → length matches < limit
    → IsFound limit query (search_lines limit path query number all_lines matches)
unfolding search_lines IsFound len
search_lines-IsFound limit path query number [] matches h k = (h, inl (refl, k))
search_lines-IsFound limit path query number (line ∷ rest) matches h k =
    let found = push_matches limit path number line (columns (length line) 0 query line) matches in
    let step =
      push_matches-IsFound limit path number query line (columns (length line) 0 query line) matches
        (columns-IsColumn (length line) 0 query line line [] refl refl) h k in
    elim step.1 [
      | inl (t, below) ↦
          rw t (search_lines-IsFound limit path query (number + 1) rest found.1 step.0 below)
      | inr (t, full) ↦ rw t (step.0, inr (refl, full))
    ]

-- A search without an answer, or with one that is good.
IsAnswer : ℕ → Str → Searched → Type 0
IsAnswer limit query none = Unit
IsAnswer limit query (some (err e)) = Unit
IsAnswer limit query (some (ok found)) = IsFound limit query found

module _ (host : Host) where
  search_file-IsAnswer :
      (root target : PathBuf) (query : Str) (limit : ℕ) (metadata : Metadata)
      (matches : List SearchMatch) (w : host.World)
      → All (IsMatch query) matches
      → length matches < limit
      → IsAnswer limit query (some (search_file host root target query limit metadata matches w))
  unfolding search_file IsAnswer IsFound
  search_file-IsAnswer root target query limit metadata matches w h k =
      elim (Bool-cases (not (is_file metadata.kind) || ltb hard_max_read_bytes metadata.size)) [
        | inl t ↦ rw t (h, inl (refl, k))
        | inr f ↦ go f (host.read target w) refl
      ]
    where
      go :
          (not (is_file metadata.kind) || ltb hard_max_read_bytes metadata.size) ≡ false
          → (r : IoResult Bytes) → host.read target w ≡ r
          → IsAnswer limit query
              (some (search_file host root target query limit metadata matches w))
      go f (err e) q = rw (f, q) tt
      go f (ok bytes) q = elim (Option-cases (from_utf8 bytes)) [
        | inl n ↦ rw (f, q, ◌>>=◌, n) (h, inl (refl, k))
        | inr (content, t) ↦
            rw (f, q, ◌>>=◌, t)
              (search_lines-IsFound limit (relative_display root target) query 1 (lines content)
                matches h k)
      ]

  search_entries-IsAnswer :
      (limit : ℕ) (query : Str) (visit : PathBuf → List SearchMatch → Searched)
      (good : (p : PathBuf) (ms : List SearchMatch)
        → All (IsMatch query) ms
        → length ms < limit
        → IsAnswer limit query (visit p ms))
      (found : List (IoResult PathBuf)) (matches : List SearchMatch)
      → All (IsMatch query) matches
      → length matches < limit
      → IsAnswer limit query (search_entries host visit found matches)
  unfolding search_entries IsAnswer IsFound
  search_entries-IsAnswer limit query visit good [] matches h k = (h, inl (refl, k))
  search_entries-IsAnswer limit query visit good (err e ∷ rest) matches h k = tt
  search_entries-IsAnswer limit query visit good (ok entry ∷ rest) matches h k =
      go (visit entry matches) refl (good entry matches h k)
        (λ ms a b. search_entries-IsAnswer limit query visit good rest ms a b)
    where
      go :
          (r : Searched)
          → visit entry matches ≡ r
          → IsAnswer limit query r
          → ((ms : List SearchMatch)
              → All (IsMatch query) ms
              → length ms < limit
              → IsAnswer limit query (search_entries host visit rest ms))
          → IsAnswer limit query (search_entries host visit (ok entry ∷ rest) matches)
      go none e a later = rw (e, search_entries) tt
      go (some (err x)) e a later = rw (e, search_entries) tt
      go (some (ok (true, ms))) e a later = rw (e, search_entries) a
      go (some (ok (false, ms))) e (good, inl (t, below)) later =
          rw (e, search_entries) (later ms good below)
      go (some (ok (false, ms))) e (good, inr (t, full)) later = absurd (ground arith)

  search_path-IsAnswer :
      (depth : ℕ) (root : PathBuf) (query : Str) (limit : ℕ) (w : host.World) (target : PathBuf)
      (matches : List SearchMatch)
      → All (IsMatch query) matches
      → length matches < limit
      → IsAnswer limit query (search_path host depth root query limit w target matches)
  unfolding search_path IsAnswer IsFound
  search_path-IsAnswer zero root query limit w target matches h k = tt
  search_path-IsAnswer (suc depth) root query limit w target matches h k =
      go (host.symlink_metadata target w) refl (λ found.
        search_entries-IsAnswer limit query (search_path host depth root query limit w)
          (search_path-IsAnswer depth root query limit w) found matches h k)
    where
      listed :
          (metadata : Metadata)
          → host.symlink_metadata target w ≡ ok metadata
          → is_symlink metadata.kind ≡ false
          → is_dir metadata.kind ≡ true
          → (d : IoResult (List (IoResult PathBuf))) → host.read_dir target w ≡ d
          → ((found : List (IoResult PathBuf))
              → IsAnswer limit query
                  (search_entries host (search_path host depth root query limit w) found matches))
          → IsAnswer limit query (search_path host (suc depth) root query limit w target matches)
      listed metadata e f t (err x) q later = rw (e, search_path, f, t, q) tt
      listed metadata e f t (ok found) q later = rw (e, search_path, f, t, q) (later found)

      go :
          (r : IoResult Metadata)
          → host.symlink_metadata target w ≡ r
          → ((found : List (IoResult PathBuf))
              → IsAnswer limit query
                  (search_entries host (search_path host depth root query limit w) found matches))
          → IsAnswer limit query (search_path host (suc depth) root query limit w target matches)
      go (err x) e later = rw (e, search_path) tt
      go (ok metadata) e later = elim (Bool-cases (is_symlink metadata.kind)) [
        | inl t ↦ rw (e, search_path, t) (h, inl (refl, k))
        | inr f ↦ elim (Bool-cases (is_dir metadata.kind)) [
          | inr g ↦
              rw (e, search_path, f, g)
                (search_file-IsAnswer root target query limit metadata matches w h k)
          | inl t ↦ listed metadata e f t (host.read_dir target w) refl later
        ]
      ]

  -- When `search_files` succeeds, every match shows a line with the query at the column that it
  -- gives, counted in bytes from 1; the answer is cut exactly when it has as many matches as the
  -- limit, which is from 1 to 1000, and has fewer otherwise.
  pub search_files-IsFound :
      (depth : ℕ) (config : Config) (request : SearchRequest) (w : host.World)
      (response : SearchResponse)
      → search_files host depth config request w ≡ some (ok response)
      → IsFound (limit_of request) request.query (response.truncated, response.matches)
        × (1 ≤ limit_of request)
        × (limit_of request ≤ hard_max_results)
  unfolding search_files search_response IsAnswer
  search_files-IsFound depth config request w response h =
      go (prepare_search host config request w) refl
    where
      positive : (0 < limit_of request) × (limit_of request ≤ 1000)
      positive = (grind arith, grind arith)

      found :
          (r : Searched)
          → IsAnswer (limit_of request) request.query r
          → search_response r ≡ some (ok response)
          → IsFound (limit_of request) request.query (response.truncated, response.matches)
      found none a e = absurd (ground arith)
      found (some (err x)) a e = absurd (ground arith)
      found (some (ok (truncated, matches))) a e =
          subst
            (λ (r : SearchResponse).
              IsFound (limit_of request) request.query (r.truncated, r.matches))
            (ok_inj {E = ApiError} {r = ok (record { matches = matches; truncated = truncated })}
              refl cc)
            a

      go :
          (r : ApiResult (PathBuf × PathBuf))
          → prepare_search host config request w ≡ r
          → IsFound (limit_of request) request.query (response.truncated, response.matches)
            × (1 ≤ limit_of request)
            × (limit_of request ≤ hard_max_results)
      go (err x) e = absurd (ground arith)
      go (ok (root, target)) e = (
        found (search_path host depth root request.query (limit_of request) w target [])
            (search_path-IsAnswer depth root request.query (limit_of request) w target [] tt
              positive.0)
            (rw (e, search_files) at h),
        positive.0,
        positive.1,
      )
