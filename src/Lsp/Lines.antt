-- ===== src/Lsp/Lines.antt =====
-- `lines` and `split_inclusive` take a text apart at the same places.
use tux_bridge.Prelude.{
  ℕ, zero, suc, ◌+◌, ◌≡◌, refl, sym, ap, ◌∙◌, ◌⊎◌, inl, inr, Str, true, false, some, List, [], ◌∷◌,
  ◌++◌, arith, All, append_assoc, append-nil, Bool-cases, get_elem?, len, ◌==◌, ◌&&◌, ◌||◌,
  split_at,
}
use mathlib.Core.List.{reverse, reverse-cons, reverse-reverse}
use tux_bridge.Prelude.Lines.{strip_cr, lines_from}
use tux_bridge.Error.{ok}
use tux_bridge.Lsp.Positions.{inclusive_from, newlines, strip_newline, seek_line}

newlines-append : (s t : Str) → newlines (s ++ t) ≡ newlines s + newlines t
unfolding newlines
newlines-append [] t = omega arith
newlines-append (c ∷ s) t = omega (arith, newlines-append s t)

-- The text of some parts that follow each other.
abbrev pub flat : List Str → Str
flat [] = []
flat (s ∷ rest) = s ++ flat rest

abbrev pub IsLine : Str → Type 0
IsLine s = newlines s ≡ 0

split_at-cons : (cur s : Str) → (line : Str) × (rest : List Str) × (split_at 10 cur s ≡ line ∷ rest)
unfolding split_at
split_at-cons cur [] = (cur, [], refl)
split_at-cons cur (c ∷ s) = elim (Bool-cases (c == 10)) [
  | inl t ↦ rw (t, split_at) (cur, split_at 10 [] s, refl)
  | inr f ↦ rw (f, split_at) (split_at-cons (cur ++ c ∷ []) s)
]

pub split_at-flat :
    (cur s : Str)
    → IsLine cur
    → (flat (inclusive_from (split_at 10 cur s)) ≡ cur ++ s) × All IsLine (split_at 10 cur s)
unfolding split_at inclusive_from newlines
split_at-flat [] [] h = (refl, (h, tt))
split_at-flat (c ∷ cur) [] h = (refl, (h, tt))
split_at-flat cur (c ∷ s) h = elim (Bool-cases (c == 10)) [
  | inl t ↦
      let (whole, good) = split_at-flat [] s refl in
      let (line, rest, e) = split_at-cons [] s in
      let c_is : c ≡ 10 = ground arith in
      let first : flat (inclusive_from (cur ∷ split_at 10 [] s))
          ≡ (cur ++ 10 ∷ []) ++ flat (inclusive_from (split_at 10 [] s)) =
        rw (e, inclusive_from) refl in
      rw (t, split_at)
        (
          first
              ∙ ap (λ x. (cur ++ 10 ∷ []) ++ x) whole
              ∙ append_assoc cur (10 ∷ []) s
              ∙ rw c_is refl,
          (h, good),
        )
  | inr f ↦
      let alone : IsLine (cur ++ c ∷ []) = ground (arith, newlines-append cur (c ∷ [])) in
      let (whole, good) = split_at-flat (cur ++ c ∷ []) s alone in
      rw (f, split_at) (whole ∙ append_assoc cur (c ∷ []) s, good)
]

pub strip_cr-append : (line : Str) → (tail : Str) × (line ≡ strip_cr line ++ tail)
unfolding strip_cr
strip_cr-append line = go (reverse line) refl
  where
    go : (r : Str) → reverse line ≡ r → (tail : Str) × (line ≡ strip_cr line ++ tail)
    go [] e = rw (e, strip_cr) (line, refl)
    go (c ∷ r) e = elim (Bool-cases (c == 13)) [
      | inr f ↦ rw (e, strip_cr, f) ([], sym (append-nil line))
      | inl t ↦
          rw (e, strip_cr, t) (c ∷ [], sym (reverse-reverse line) ∙ ap reverse e ∙ reverse-cons c r)
    ]

strip_newline-append : (s : Str) → IsLine s → strip_newline (s ++ 10 ∷ []) ≡ s
unfolding strip_newline newlines
strip_newline-append [] h = refl
strip_newline-append (c ∷ []) h = refl
strip_newline-append (c ∷ d ∷ s) h = ap (λ t. c ∷ t) (strip_newline-append (d ∷ s) (omega arith))

strip_newline_none : (s : Str) → IsLine s → strip_newline s ≡ s
unfolding strip_newline newlines
strip_newline_none [] h = refl
strip_newline_none (c ∷ []) h = ground arith
strip_newline_none (c ∷ d ∷ s) h = ap (λ t. c ∷ t) (strip_newline_none (d ∷ s) (omega arith))

-- A text that a line can start after.
pub IsStart : Str → Type 0
IsStart s = (s ≡ []) ⊎ ((t : Str) × (s ≡ t ++ 10 ∷ []))

IsStart-append : (line rest : Str) → IsStart rest → IsStart ((line ++ 10 ∷ []) ++ rest)
unfolding IsStart
IsStart-append line rest (inl e) = inr (line, rw e (append-nil (line ++ 10 ∷ [])))
IsStart-append line rest (inr (t, e)) = inr (
  (line ++ 10 ∷ []) ++ t,
  ap (λ x. (line ++ 10 ∷ []) ++ x) e ∙ sym (append_assoc (line ++ 10 ∷ []) t (10 ∷ [])),
)

-- The line that is found: its number counts the line ends before it, and it begins like the line of
-- `lines` with that number.
unfoldable pub IsSought : Str → ℕ → ℕ → Str → List Str → Str → Type 0
IsSought text number n passed parts l =
    (skipped : Str) × (value : Str) × (tail : Str) × (rest : Str) × (seek_line text number passed
        (inclusive_from parts)
      ≡ ok (len (passed ++ skipped), value))
    × (newlines skipped ≡ n)
    × IsStart skipped
    × (strip_newline value ≡ l ++ tail)
    × (flat (inclusive_from parts) ≡ skipped ++ (l ++ (tail ++ rest)))

here_test :
    (number k : ℕ) (passed : Str)
    → newlines passed ≡ k
    → number ≡ k + 0
    → (((number == 0) && (len passed == 0)) || (newlines passed == number)) ≡ true
here_test number k passed h q = ground arith

later_test :
    (number k m : ℕ) (passed : Str)
    → newlines passed ≡ k
    → number ≡ k + suc m
    → (((number == 0) && (len passed == 0)) || (newlines passed == number)) ≡ false
later_test number k m passed h q = ground arith

pub seek_line-IsSought :
    (text : Str) (number n k : ℕ) (passed : Str) (parts : List Str) (l : Str)
    → All IsLine parts
    → newlines passed ≡ k
    → number ≡ k + n
    → get_elem? (lines_from parts) n ≡ some l
    → IsSought text number n passed parts l
unfolding seek_line lines_from inclusive_from IsSought IsStart newlines
seek_line-IsSought text number n k passed [] l good h q e = cc
seek_line-IsSought text number n k passed ([] ∷ []) l good h q e = cc
seek_line-IsSought text number (suc n) k passed ((c ∷ r) ∷ []) l good h q e = cc
seek_line-IsSought text number zero k passed ((c ∷ r) ∷ []) l good h q e =
    let same : (c ∷ r) ≡ l = ground arith in
    let found : seek_line text number passed (inclusive_from ((c ∷ r) ∷ []))
        ≡ ok (len (passed ++ []), c ∷ r) =
      rw (here_test number k passed h q, seek_line, append-nil passed) refl in
    (
      [],
      c ∷ r,
      [],
      [],
      found,
      refl,
      inl refl,
      strip_newline_none (c ∷ r) good.0 ∙ same ∙ sym (append-nil l),
      ap (λ (x : Str). x ++ []) same,
    )
seek_line-IsSought text number zero k passed (line ∷ next ∷ rest) l good h q e =
    let (tail, split) = strip_cr-append line in
    let same : strip_cr line ≡ l = ground arith in
    let whole : line ≡ l ++ tail = rw (← same) split in
    let found : seek_line text number passed (inclusive_from (line ∷ next ∷ rest))
        ≡ ok (len (passed ++ []), line ++ 10 ∷ []) =
      rw (here_test number k passed h q, seek_line, append-nil passed) refl in
    let others = flat (inclusive_from (next ∷ rest)) in
    (
      [],
      line ++ 10 ∷ [],
      tail,
      10 ∷ others,
      found,
      refl,
      inl refl,
      strip_newline-append line good.0 ∙ whole,
      append_assoc line (10 ∷ []) others
          ∙ ap (λ x. x ++ 10 ∷ others) whole
          ∙ append_assoc l tail (10 ∷ others),
    )
seek_line-IsSought text number (suc n) k passed (line ∷ next ∷ rest) l good h q e =
    let first = line ++ 10 ∷ [] in
    let counted : newlines first ≡ 1 = ground (arith, newlines-append line (10 ∷ []), good.0) in
    let (skipped, value, tail, after, found, count, starts, chopped, whole) =
      seek_line-IsSought text number n (suc k) (passed ++ first) (next ∷ rest) l good.1
        (omega (arith, newlines-append passed first, counted, h)) (omega arith) e in
    let step : seek_line text number passed (inclusive_from (line ∷ next ∷ rest))
        ≡ ok (len (passed ++ (first ++ skipped)), value) =
      rw (later_test number k n passed h q, seek_line, found, append_assoc passed first skipped)
        refl in
    (
      first ++ skipped,
      value,
      tail,
      after,
      step,
      omega (arith, newlines-append first skipped, counted, count),
      IsStart-append line skipped starts,
      chopped,
      ap (λ x. first ++ x) whole ∙ sym (append_assoc first skipped (l ++ (tail ++ after))),
    )
