-- ===== src/Fs/Termination.antt =====
-- The search of src/fs.rs ends: each level lengthens the path, and the host refuses long paths.
use tux_bridge.Prelude.{
  ℕ, zero, suc, ◌+◌, ◌≤◌, ◌<◌, ◌≡◌, ◌≢◌, refl, Str, Bool, true, false, some, none, List, [], ◌∷◌,
  ◌++◌, All, arith, length, length-append, Bool-cases, ◌⊎◌, inl, inr, ◌∙◌,
}
use tux_bridge.Error.{ApiResult, ApiError, ok, err}
use tux_bridge.Config.{Config}
use tux_bridge.Paths.{PathBuf, normal}
use tux_bridge.Host.{Host, IoResult, Metadata, is_dir, is_symlink}
use tux_bridge.Fs.{SearchRequest, SearchMatch, SearchResponse}
use tux_bridge.Fs.Search.{
  search_entries, search_path, Searched, limit_of, prepare_search, search_response, search_files,
}

-- An entry of a directory is its path with one more name.
abbrev pub IsEntryOf : PathBuf → IoResult PathBuf → Type 0
IsEntryOf path (ok entry) = (name : Str) × (entry ≡ path ++ normal name ∷ [])
IsEntryOf path (err e) = Unit

-- What a search that ends answers.
Searched-cases :
    (r : Searched)
    → r ≢ none
    → ((x : ApiError) × (r ≡ some (err x)))
      ⊎ ((found : Bool × List SearchMatch) × (r ≡ some (ok found)))
Searched-cases none h = absurd (h refl)
Searched-cases (some (err x)) h = inl (x, refl)
Searched-cases (some (ok found)) h = inr (found, refl)

length-entry :
    (path entry : PathBuf) (name : Str)
    → entry ≡ path ++ normal name ∷ []
    → length entry ≡ length path + 1
length-entry path entry name e = rw e (length-append path (normal name ∷ []))

module _ (host : Host) where
  -- `read_dir` lists names below the directory.
  unfoldable pub ListsBelow : host.World → Type 0
  ListsBelow w =
      (path : PathBuf) (found : List (IoResult PathBuf))
      → host.read_dir path w ≡ ok found
      → All (IsEntryOf path) found

  -- A path of more than `longest` parts is refused (ENAMETOOLONG).
  unfoldable pub RefusesLong : ℕ → host.World → Type 0
  RefusesLong longest w =
      (path : PathBuf) (metadata : Metadata)
      → host.symlink_metadata path w ≡ ok metadata
      → length path ≤ longest

  search_entries_ends :
      (visit : PathBuf → List SearchMatch → Searched) (path : PathBuf)
      → ((p : PathBuf) (ms : List SearchMatch) → length p ≡ length path + 1 → visit p ms ≢ none)
      → (found : List (IoResult PathBuf)) (matches : List SearchMatch) → All (IsEntryOf path) found
      → search_entries host visit found matches ≢ none
  unfolding search_entries
  search_entries_ends visit path ends [] matches below = λ e. absurd (ground arith)
  search_entries_ends visit path ends (err e ∷ rest) matches below = λ e. absurd (ground arith)
  search_entries_ends visit path ends (ok entry ∷ rest) matches ((name, here), below) =
      go (visit entry matches) refl (ends entry matches (length-entry path entry name here))
        (λ ms. search_entries_ends visit path ends rest ms below)
    where
      go :
          (r : Searched)
          → visit entry matches ≡ r
          → visit entry matches ≢ none
          → ((ms : List SearchMatch) → search_entries host visit rest ms ≢ none)
          → search_entries host visit (ok entry ∷ rest) matches ≢ none
      go none e a later = absurd (a e)
      go (some (err x)) e a later = rw (e, search_entries) (λ q. absurd (ground arith))
      go (some (ok (true, ms))) e a later = rw (e, search_entries) (λ q. absurd (ground arith))
      go (some (ok (false, ms))) e a later = rw (e, search_entries) (later ms)

  search_path_ends :
      (longest : ℕ) (w : host.World)
      → ListsBelow w
      → RefusesLong longest w
      → (depth : ℕ) (root : PathBuf) (query : Str) (limit : ℕ) (target : PathBuf)
        (matches : List SearchMatch)
      → 1 ≤ depth
      → longest + 1 < length target + depth
      → search_path host depth root query limit w target matches ≢ none
  unfolding search_path ListsBelow RefusesLong
  search_path_ends longest w lists refuses zero root query limit target matches k h =
      absurd (omega arith)
  search_path_ends longest w lists refuses (suc depth) root query limit target matches k h =
      go (host.symlink_metadata target w) refl (λ short found below.
        search_entries_ends (search_path host depth root query limit w) target
          (λ p ms e.
            search_path_ends longest w lists refuses depth root query limit p ms (omega arith)
              (omega arith))
          found matches below)
    where
      listed :
          (metadata : Metadata)
          → host.symlink_metadata target w ≡ ok metadata
          → is_symlink metadata.kind ≡ false
          → is_dir metadata.kind ≡ true
          → (d : IoResult (List (IoResult PathBuf))) → host.read_dir target w ≡ d
          → ((found : List (IoResult PathBuf))
              → All (IsEntryOf target) found
              → search_entries host (search_path host depth root query limit w) found matches
                ≢ none)
          → search_path host (suc depth) root query limit w target matches ≢ none
      listed metadata e f t (err x) q later =
          rw (e, search_path, f, t, q) (λ z. absurd (ground arith))
      listed metadata e f t (ok found) q later =
          rw (e, search_path, f, t, q) (later found (lists target found q))

      go :
          (r : IoResult Metadata)
          → host.symlink_metadata target w ≡ r
          → (length target ≤ longest
              → (found : List (IoResult PathBuf)) → All (IsEntryOf target) found
              → search_entries host (search_path host depth root query limit w) found matches
                ≢ none)
          → search_path host (suc depth) root query limit w target matches ≢ none
      go (err x) e later = rw (e, search_path) (λ z. absurd (ground arith))
      go (ok metadata) e later = elim (Bool-cases (is_symlink metadata.kind)) [
        | inl t ↦ rw (e, search_path, t) (λ z. absurd (ground arith))
        | inr f ↦ elim (Bool-cases (is_dir metadata.kind)) [
          | inr g ↦ rw (e, search_path, f, g) (λ z. absurd (ground arith))
          | inl t ↦
              listed metadata e f t (host.read_dir target w) refl
                (later (refuses target metadata e))
        ]
      ]

  -- What a search has answered does not change when it may go deeper.
  search_entries_more :
      (visit deeper : PathBuf → List SearchMatch → Searched)
      → ((p : PathBuf) (ms : List SearchMatch) → visit p ms ≢ none → deeper p ms ≡ visit p ms)
      → (found : List (IoResult PathBuf)) (matches : List SearchMatch)
      → search_entries host visit found matches ≢ none
      → search_entries host deeper found matches ≡ search_entries host visit found matches
  unfolding search_entries
  search_entries_more visit deeper same [] matches h = refl
  search_entries_more visit deeper same (err e ∷ rest) matches h = refl
  search_entries_more visit deeper same (ok entry ∷ rest) matches h =
      go (visit entry matches) refl (same entry matches)
        (λ ms. search_entries_more visit deeper same rest ms)
    where
      go :
          (r : Searched)
          → visit entry matches ≡ r
          → (visit entry matches ≢ none → deeper entry matches ≡ visit entry matches)
          → ((ms : List SearchMatch)
              → search_entries host visit rest ms ≢ none
              → search_entries host deeper rest ms ≡ search_entries host visit rest ms)
          → search_entries host deeper (ok entry ∷ rest) matches
            ≡ search_entries host visit (ok entry ∷ rest) matches
      go none e a later = absurd (h (rw (e, search_entries) refl))
      go (some (err x)) e a later =
          let d : deeper entry matches ≡ some (err x) = a (λ q. absurd (ground arith)) ∙ e in
          rw (e, d, search_entries) refl
      go (some (ok (true, ms))) e a later =
          let d : deeper entry matches ≡ some (ok (true, ms)) =
            a (λ q. absurd (ground arith)) ∙ e in
          rw (e, d, search_entries) refl
      go (some (ok (false, ms))) e a later =
          let d : deeper entry matches ≡ some (ok (false, ms)) =
            a (λ q. absurd (ground arith)) ∙ e in
          let ended : search_entries host visit rest ms ≢ none = rw (e, search_entries) at h in
          rw (e, d, search_entries) (later ms ended)

  search_path_more :
      (w : host.World) (depth : ℕ) (root : PathBuf) (query : Str) (limit : ℕ) (target : PathBuf)
      (matches : List SearchMatch)
      → search_path host depth root query limit w target matches ≢ none
      → search_path host (suc depth) root query limit w target matches
        ≡ search_path host depth root query limit w target matches
  unfolding search_path
  search_path_more w zero root query limit target matches h = absurd (h refl)
  search_path_more w (suc depth) root query limit target matches h =
      go (host.symlink_metadata target w) refl (λ found.
        search_entries_more (search_path host depth root query limit w)
          (search_path host (suc depth) root query limit w)
          (λ p ms. search_path_more w depth root query limit p ms) found matches)
    where
      Deeper : List (IoResult PathBuf) → Type 0
      Deeper found =
          search_entries host (search_path host depth root query limit w) found matches ≢ none
          → search_entries host (search_path host (suc depth) root query limit w) found matches
            ≡ search_entries host (search_path host depth root query limit w) found matches

      listed :
          (metadata : Metadata)
          → host.symlink_metadata target w ≡ ok metadata
          → is_symlink metadata.kind ≡ false
          → is_dir metadata.kind ≡ true
          → (d : IoResult (List (IoResult PathBuf))) → host.read_dir target w ≡ d
          → ((found : List (IoResult PathBuf)) → Deeper found)
          → search_path host (suc (suc depth)) root query limit w target matches
            ≡ search_path host (suc depth) root query limit w target matches
      listed metadata e f t (err x) q later = rw (e, search_path, f, t, q) refl
      listed metadata e f t (ok found) q later =
          rw (e, search_path, f, t, q) (later found (rw (e, search_path, f, t, q) at h))

      go :
          (r : IoResult Metadata)
          → host.symlink_metadata target w ≡ r
          → ((found : List (IoResult PathBuf)) → Deeper found)
          → search_path host (suc (suc depth)) root query limit w target matches
            ≡ search_path host (suc depth) root query limit w target matches
      go (err x) e later = rw (e, search_path) refl
      go (ok metadata) e later = elim (Bool-cases (is_symlink metadata.kind)) [
        | inl t ↦ rw (e, search_path, t) refl
        | inr f ↦ elim (Bool-cases (is_dir metadata.kind)) [
          | inr g ↦ rw (e, search_path, f, g) refl
          | inl t ↦ listed metadata e f t (host.read_dir target w) refl later
        ]
      ]

  -- With enough fuel, any more of it makes no difference.
  search_path_settled :
      (w : host.World) (depth : ℕ) (root : PathBuf) (query : Str) (limit : ℕ) (target : PathBuf)
      (matches : List SearchMatch) (r : Searched)
      → r ≢ none
      → search_path host depth root query limit w target matches ≡ r
      → (more : ℕ) → search_path host (depth + more) root query limit w target matches ≡ r
  search_path_settled w depth root query limit target matches r n e zero =
      let same : depth + 0 ≡ depth = omega arith in rw same e
  search_path_settled w depth root query limit target matches r n e (suc more) =
      let before = search_path_settled w depth root query limit target matches r n e more in
      let same : depth + suc more ≡ suc (depth + more) = omega arith in
      let ended : search_path host (depth + more) root query limit w target matches ≢ none =
        rw before n in
      rw same (search_path_more w (depth + more) root query limit target matches ended ∙ before)

  -- On a host that lists names below the directory only, and refuses paths of more than `longest`
  -- parts, `search_files` ends within `longest + 2` levels, with an answer or an error, and allowing
  -- it more levels changes nothing.
  pub search_files_ends :
      (longest : ℕ) (config : Config) (request : SearchRequest) (w : host.World)
      → ListsBelow w
      → RefusesLong longest w
      → (answer : ApiResult SearchResponse) × ((more : ℕ)
          → search_files host (longest + 2 + more) config request w ≡ some answer)
  unfolding search_files search_response
  search_files_ends longest config request w lists refuses =
      go (prepare_search host config request w) refl
    where
      searched : PathBuf → PathBuf → ℕ → Searched
      searched root target depth =
          search_path host depth root request.query (limit_of request) w target []

      settled :
          (root target : PathBuf) (r : Searched)
          → r ≢ none
          → searched root target (longest + 2) ≡ r
          → (more : ℕ) → searched root target (longest + 2 + more) ≡ r
      settled root target r n e =
          search_path_settled w (longest + 2) root request.query (limit_of request) target [] r n e

      go :
          (r : ApiResult (PathBuf × PathBuf))
          → prepare_search host config request w ≡ r
          → (answer : ApiResult SearchResponse) × ((more : ℕ)
              → search_files host (longest + 2 + more) config request w ≡ some answer)
      go (err x) e = (err x, λ more. rw (e, search_files) refl)
      go (ok (root, target)) e =
          elim (Searched-cases (searched root target (longest + 2)) (
            search_path_ends longest w lists refuses (longest + 2) root request.query
              (limit_of request) target [] (omega arith) (omega arith))) [
                | inl (x, k) ↦ (
                  err x,
                  λ more.
                      let k' = settled root target _ (λ q. absurd (ground arith)) k more in
                      rw (e, search_files, k') refl,
                )
                | inr ((b, ms), k) ↦ (
                  ok (record { matches = ms; truncated = b }),
                  λ more.
                      let k' = settled root target _ (λ q. absurd (ground arith)) k more in
                      rw (e, search_files, k') refl,
                )
              ]
