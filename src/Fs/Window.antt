-- ===== src/Fs/Window.antt =====
-- What `read_one` of src/fs.rs returns of a file: a window of lines of an excerpt.
use tux_bridge.Prelude.{
  ℕ, zero, suc, ◌+◌, ◌-◌, ◌≤◌, ◌<◌, ◌≡◌, refl, subst, ◌⊎◌, inl, inr, Str, Bytes, as_bytes, true,
  not, Option, some, none, List, [], ◌∷◌, arith, Bool-cases, length, get_elem?, take, drop, ltb,
  leb, clamp, or_else, is_empty, if◌then◌else◌,
}
use Prim.Native.Nat.{min}
use tux_bridge.Prelude.Lines.{lines, join_lines}
use tux_bridge.Error.{ApiError, ok, err, chain-Ran, ran, ok_inj, map_err, refuse_if}
use tux_bridge.Config.{WorkspaceConfig}
use tux_bridge.Paths.{PathBuf, components, join, is_under, relative_display}
use tux_bridge.Host.{Host, IoError, IoResult, is_file, map_io, map_io_ok}
use tux_bridge.Excerpt.{IsExcerpt, excerpt, excerpt-IsExcerpt}
use tux_bridge.Fs.{default_max_read_bytes, hard_max_read_bytes, ReadSpec, ReadResponse}
use tux_bridge.Fs.Resolve.{resolve_existing, validate_relative}
use tux_bridge.Fs.Read.{is_zero, validate_range, select_lines, last_line, respond, read_one}

map_internal_ok :
    {A : Type 0} (f : IoError → ApiError) (m : IoResult A) (a : A) → map_err f m ≡ ok a → m ≡ ok a
map_internal_ok f (ok b) a h = ground arith
map_internal_ok f (err e) a h = cc

module _ {A : Type 0} where
  get_elem?-take :
      (n : ℕ) (xs : List A) (i : ℕ)
      → get_elem? (take n xs) i ≡ (if ltb i n then get_elem? xs i else none)
  get_elem?-take zero xs i = ground arith
  get_elem?-take (suc n) [] i = ground arith
  get_elem?-take (suc n) (x ∷ xs) zero = ground arith
  get_elem?-take (suc n) (x ∷ xs) (suc i) = ground (arith, get_elem?-take n xs i)

  get_elem?-drop : (n : ℕ) (xs : List A) (i : ℕ) → get_elem? (drop n xs) i ≡ get_elem? xs (n + i)
  get_elem?-drop zero xs i = ground arith
  get_elem?-drop (suc n) [] i = ground arith
  get_elem?-drop (suc n) (x ∷ xs) i = ground (arith, get_elem?-drop n xs i)

  get_elem?_beyond : (xs : List A) (i : ℕ) → length xs ≤ i → get_elem? xs i ≡ none
  get_elem?_beyond [] i h = refl
  get_elem?_beyond (x ∷ xs) zero h = absurd (omega arith)
  get_elem?_beyond (x ∷ xs) (suc i) h = get_elem?_beyond xs i (omega arith)

-- `selected` is the lines with numbers from `start` to `end`, as many as there are.
pub IsWindow : ℕ → ℕ → List Str → List Str → Type 0
IsWindow start end all_lines selected =
    (i : ℕ)
    → get_elem? selected i
      ≡ (if leb (start + i) end then get_elem? all_lines (start - 1 + i) else none)

select_lines-IsWindow :
    (start end : ℕ) (all_lines : List Str)
    → 1 ≤ start
    → IsWindow start end all_lines (select_lines start end all_lines)
unfolding select_lines IsWindow
select_lines-IsWindow start end all_lines h i =
    let beyond = get_elem?_beyond all_lines (start - 1 + i) in
    elim (Bool-cases (ltb (length all_lines) start)) [
      | inl t ↦ ground (arith, beyond)
      | inr f ↦ elim (Bool-cases (is_empty all_lines)) [
        | inl e ↦ ground (arith, beyond)
        | inr e ↦
            rw (e, f)
              (ground (
                arith,
                get_elem?-take (min end (length all_lines) - (start - 1))
                    (drop (start - 1) all_lines) i,
                get_elem?-drop (start - 1) all_lines i,
                beyond,
              ))
      ]
    ]

-- A range that is accepted starts at line 1 or later, and ends no earlier than it starts.
validate_range_ok :
    (start end : Option ℕ) (all_lines : List Str) (done : Unit {0})
    → validate_range start end ≡ ok done
    → (1 ≤ or_else start 1)
      × ((length all_lines < or_else start 1) ⊎ (or_else start 1 ≤ last_line end all_lines))
unfolding validate_range is_zero last_line
validate_range_ok (some start) (some end) all_lines done h = (ground arith, inr (ground arith))
validate_range_ok (some start) none all_lines done h =
    elim (Bool-cases (ltb (length all_lines) start)) [
      | inl t ↦ (ground arith, inl (ground arith))
      | inr f ↦ (ground arith, inr (ground arith))
    ]
validate_range_ok none (some end) all_lines done h = (omega arith, inr (ground arith))
validate_range_ok none none all_lines done h = (omega arith, inr (ground arith))

-- A range starts inside the lines, or there is nothing to select: `&all_lines[low..high]` is in bounds.
pub IsInBounds : ReadSpec → Str → Type 0
IsInBounds spec content =
    (length (lines content) < or_else spec.start_line 1)
    ⊎ (or_else spec.start_line 1 ≤ last_line spec.end_line (lines content))

module _ (host : Host) where
  -- The root is the workspace's in canonical form; the target is that of the root joined with the
  -- requested path, and lies under the root.
  pub IsResolved : WorkspaceConfig → Str → host.World → PathBuf → PathBuf → Type 0
  IsResolved workspace requested w root target =
      (host.canonicalize (components workspace.root) w ≡ ok root)
      × (host.canonicalize (join root (components requested)) w ≡ ok target)
      × (is_under root target ≡ true)

  resolve_existing_ok :
      (workspace : WorkspaceConfig) (requested : Str) (w : host.World) (root target : PathBuf)
      → resolve_existing host workspace requested w ≡ ok (root, target)
      → IsResolved workspace requested w root target
  unfolding resolve_existing IsResolved
  resolve_existing_ok workspace requested w root target h =
      elim (chain-Ran (validate_relative (components requested)) _ h) [
        | ran d1 e1 h1 ↦
            elim (chain-Ran (map_err _ (host.canonicalize (components workspace.root) w)) _ h1) [
              | ran r e2 h2 ↦
                  elim (chain-Ran
                    (map_err map_io (host.canonicalize (join r (components requested)) w)) _ h2) [
                      | ran t e3 h3 ↦ elim (chain-Ran (refuse_if (not (is_under r t)) _) _ h3) [
                        | ran d2 e4 h4 ↦
                            let same : (r, t) ≡ (root, target) = ok_inj refl h4 in
                            let inside : is_under r t ≡ true = ground arith in
                            subst
                              (λ (p : PathBuf × PathBuf). IsResolved workspace requested w p.0 p.1)
                              same (map_internal_ok _ _ r e2, map_io_ok _ t e3, inside)
                      ]
                    ]
            ]
      ]

  -- The answer is a window of the lines of the excerpt `content` of the file.
  pub IsReading : ReadSpec → host.World → PathBuf → Bytes → Str → ReadResponse → Type 0
  IsReading spec w target file content response =
      (selected : List Str) × (host.read target w ≡ ok file)
      × IsExcerpt (clamp (or_else spec.max_bytes default_max_read_bytes) 1 hard_max_read_bytes) file
          content response.truncated
      × IsWindow (or_else spec.start_line 1) (last_line spec.end_line (lines content))
          (lines content) selected
      × (response.content ≡ join_lines selected)
      × (response.sha256 ≡ host.sha256 (as_bytes response.content))

  -- When `read_one` succeeds, the file is what the host makes canonical of the workspace's canonical
  -- root joined with the requested path, and it is under that root; the answer is the requested lines
  -- of the file, or of an excerpt that keeps within the byte limit, with their hash; and no slice was
  -- out of bounds.
  pub read_one-IsReading :
      (workspace : WorkspaceConfig) (spec : ReadSpec) (w : host.World) (response : ReadResponse)
      → read_one host workspace spec w ≡ ok response
      → (root : PathBuf) × (target : PathBuf) × (file : Bytes) × (content : Str) × IsResolved
          workspace spec.path w root target
        × (response.path ≡ relative_display root target)
        × IsInBounds spec content
        × IsReading spec w target file content response
  unfolding read_one IsReading IsInBounds respond
  read_one-IsReading workspace spec w response h =
      elim (chain-Ran (validate_range spec.start_line spec.end_line) _ h) [
        | ran d1 e1 h1 ↦ elim (chain-Ran (resolve_existing host workspace spec.path w) _ h1) [
          | ran (root, target) e2 h2 ↦
              elim (chain-Ran (map_err map_io (host.metadata target w)) _ h2) [
                | ran m e3 h3 ↦ elim (chain-Ran (refuse_if (not (is_file m.kind)) _) _ h3) [
                  | ran d2 e4 h4 ↦ elim (chain-Ran (map_err map_io (host.read target w)) _ h4) [
                    | ran file e5 h5 ↦
                        elim (chain-Ran
                          (excerpt
                            (clamp (or_else spec.max_bytes default_max_read_bytes) 1
                              hard_max_read_bytes)
                            file)
                          _ h5) [
                            | ran content e6 h6 ↦
                                let (positive, bounds) =
                                  validate_range_ok spec.start_line spec.end_line (lines content) d1
                                    e1 in
                                subst
                                  (λ (r : ReadResponse).
                                    (root : PathBuf) × (target : PathBuf) × (file : Bytes)
                                    × (content : Str) × IsResolved workspace spec.path w root target
                                    × (r.path ≡ relative_display root target)
                                    × IsInBounds spec content
                                    × IsReading spec w target file content r)
                                  (ok_inj refl h6)
                                  (
                                    root,
                                    target,
                                    file,
                                    content,
                                    resolve_existing_ok workspace spec.path w root target e2,
                                    refl,
                                    bounds,
                                    (
                                      select_lines (or_else spec.start_line 1)
                                          (last_line spec.end_line (lines content)) (lines content),
                                      map_io_ok _ file e5,
                                      excerpt-IsExcerpt _ file content e6,
                                      select_lines-IsWindow _ _ (lines content) positive,
                                      refl,
                                      refl,
                                    ),
                                  )
                          ]
                  ]
                ]
              ]
        ]
      ]
