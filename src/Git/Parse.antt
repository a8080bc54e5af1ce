-- ===== src/Git/Parse.antt =====
-- The parsers of git's output in src/git.rs.
use tux_bridge.Prelude.{
  ℕ, zero, suc, ◌+◌, ◌-◌, ◌*◌, Str, codes, ◌&&◌, Option, none, some, List, [], ◌∷◌, ◌++◌, ltb, leb,
  ◌==◌, or_else, if◌then◌else◌, trim, strip_prefix, split, trim_end, as_bytes, len_utf8,
}
use tux_bridge.Ids.{u64_mod}

-- `split_once`: around the first occurrence. `before` is what precedes.
unfoldable pub split_once_from : Str → Str → Str → Option (Str × Str)
split_once_from sep before [] = elim (strip_prefix sep []) [
  | none ↦ none
  | some after ↦ some (before, after)
]
split_once_from sep before (c ∷ s) = elim (strip_prefix sep (c ∷ s)) [
  | none ↦ split_once_from sep (before ++ c ∷ []) s
  | some after ↦ some (before, after)
]

abbrev pub split_once : Str → Str → Option (Str × Str)
split_once sep s = split_once_from sep [] s

-- `splitn(n, sep)` for a positive `n`: the last part is the rest.
unfoldable pub splitn : ℕ → Str → Str → List Str
unfolding split_once_from
splitn zero sep s = []
splitn (suc zero) sep s = s ∷ []
splitn (suc (suc n)) sep s = elim (split_once sep s) [
  | none ↦ s ∷ []
  | some parts ↦ parts.0 ∷ splitn (suc n) sep parts.1
]

-- `parse::<usize>()`: an optional `+` and at least one digit, below 2^64.
unfoldable pub decimal : Option ℕ → Str → Option ℕ
decimal v [] = v
decimal none (c ∷ s) = none
decimal (some v) (c ∷ s) =
    let next = v * 10 + (c - b'0') in
    decimal (if leb b'0' c && leb c b'9' && ltb next u64_mod then some next else none) s

unfoldable pub parse_usize : Str → Option ℕ
unfolding decimal
parse_usize [] = none
parse_usize (c ∷ s) =
    if c == b'+'
    then elim s [ [] ↦ none | d ∷ r ↦ decimal (some 0) (d ∷ r) ]
    else decimal (some 0) (c ∷ s)

-- One part of the tracking note, on the counts so far.
unfoldable pub add_count : Str → ℕ × ℕ → ℕ × ℕ
unfolding parse_usize
add_count part (ahead, behind) = elim (strip_prefix (codes "ahead ") part) [
  | some value ↦ (or_else (parse_usize value) 0, behind)
  | none ↦ elim (strip_prefix (codes "behind ") part) [
    | some value ↦ (ahead, or_else (parse_usize value) 0)
    | none ↦ (ahead, behind)
  ]
]

unfoldable pub add_counts : List Str → ℕ × ℕ → ℕ × ℕ
unfolding add_count
add_counts [] counts = counts
add_counts (part ∷ parts) counts = add_counts parts (add_count (trim part) counts)

unfoldable pub tracking_counts : Option Str → ℕ × ℕ
unfolding add_counts
tracking_counts none = (0, 0)
tracking_counts (some tracking) = add_counts (split b',' tracking) (0, 0)

-- The header without its note, and the note.
unfoldable pub split_tracking : Str → Str × Option Str
split_tracking raw = elim (split_once (codes " [") raw) [
  | none ↦ (raw, none)
  | some parts ↦ (parts.0, some (trim_end (λ c. c == b']') parts.1))
]

unfoldable pub split_upstream : Str → Str × Option Str
split_upstream main = elim (split_once (codes "...") main) [
  | none ↦ (main, none)
  | some parts ↦ (parts.0, some parts.1)
]

-- Branch, upstream, and how far ahead and behind.
unfoldable pub parse_branch_header : Str → Str × Option Str × ℕ × ℕ
unfolding split_tracking split_upstream tracking_counts
parse_branch_header header =
    let raw = or_else (strip_prefix (codes "## ") header) header in
    let (main, tracking) = split_tracking raw in
    let (branch, upstream) = split_upstream main in
    let (ahead, behind) = tracking_counts tracking in (branch, upstream, ahead, behind)

pub record GitChange : Type 0 where
  pub index : ℕ
  pub worktree : ℕ
  pub path : Str

-- `&s[n..]`: `none` where byte `n` is not a character boundary, on which slicing panics.
unfoldable pub slice_from : ℕ → Str → Option Str
slice_from n [] = if n == 0 then some [] else none
slice_from n (c ∷ s) =
    let rest = slice_from (n - len_utf8 c) s in
    if n == 0 then some (c ∷ s) else if ltb n (len_utf8 c) then none else rest

-- `bytes[0] as char`, `bytes[1] as char` and the rest of the line from byte 3. The outer `none` is
-- the panic of the slice.
unfoldable pub parse_status_line : Str → Option (Option GitChange)
unfolding slice_from
parse_status_line line = elim (as_bytes line) [
  | x ∷ y ∷ z ∷ bytes ↦ elim (slice_from 3 line) [
    | none ↦ none
    | some path ↦ some (some (record { index = x; worktree = y; path = path }))
  ]
  | _ ↦ some none
]
