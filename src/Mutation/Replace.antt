-- ===== src/Mutation/Replace.antt =====
-- `apply_unique_replace` (src/mutation.rs): exactly one occurrence changes.
use tux_bridge.Prelude.{
  ℕ, zero, suc, ◌≤◌, ◌<◌, ◌≡◌, refl, subst, ap, append_assoc, Str, none, some, [], ◌∷◌, ◌++◌,
  length, length-append, arith, strip_prefix, Option-cases, inl, inr, ◌⊎◌, false, contains,
  starts_with, sym, ◌∙◌,
}
use tux_bridge.Error.{ok}
use tux_bridge.Mutation.{count_matches, replace_first, judge_matches, apply_unique_replace}

-- `strip_prefix` takes off what it was asked to, and fails where `starts_with` does.
pub strip_prefix-append : (p s r : Str) → strip_prefix p s ≡ some r → s ≡ p ++ r
unfolding strip_prefix
strip_prefix-append [] s r h = ground arith
strip_prefix-append (x ∷ p) [] r h = cc
strip_prefix-append (x ∷ p) (y ∷ s) r h = ground (arith, strip_prefix-append p s r)

starts_with-strip_prefix : (p s : Str) → strip_prefix p s ≡ none → starts_with p s ≡ false
unfolding strip_prefix starts_with
starts_with-strip_prefix [] s h = cc
starts_with-strip_prefix (x ∷ p) [] h = refl
starts_with-strip_prefix (x ∷ p) (y ∷ s) h = ground (arith, starts_with-strip_prefix p s)

length-rest : (p s r : Str) → 0 < length p → strip_prefix p s ≡ some r → length r < length s
length-rest p s r k h =
    let whole = length-append p r in rw (strip_prefix-append p s r h) (omega arith)

-- No match is counted only where the text does not contain the needle.
count_matches-contains :
    (n : ℕ) (old s : Str)
    → 0 < length old
    → length s ≤ n
    → count_matches n old s ≡ 0
    → contains old s ≡ false
unfolding count_matches contains starts_with
count_matches-contains n [] s k h e = absurd (omega arith)
count_matches-contains n (x ∷ old) [] k h e = refl
count_matches-contains zero (x ∷ old) (c ∷ s) k h e = absurd (omega arith)
count_matches-contains (suc n) (x ∷ old) (c ∷ s) k h e =
    elim (Option-cases (strip_prefix (x ∷ old) (c ∷ s))) [
      | inr (rest, found) ↦ absurd (ground arith)
      | inl miss ↦
          let head = starts_with-strip_prefix (x ∷ old) (c ∷ s) miss in
          let later =
            count_matches-contains n (x ∷ old) s k (omega arith) (rw (miss, count_matches) at e) in
          rw (head, later) refl
    ]

-- No occurrence of `old` begins in `before` when `rest` follows.
unfoldable pub NoneStarts : Str → Str → Str → Type 0
NoneStarts old [] rest = Unit
NoneStarts old (c ∷ before) rest =
    (starts_with old (c ∷ (before ++ rest)) ≡ false) × NoneStarts old before rest

-- The text around its first match, as `replace_first` leaves it.
abbrev IsSplit : ℕ → Str → Str → Str → Str → Str → Type 0
IsSplit n old new s before after =
    (s ≡ before ++ old ++ after)
    × (replace_first old new s ≡ before ++ new ++ after)
    × NoneStarts old before (old ++ after)
    × ((m : ℕ) × (length after ≤ m) × (count_matches n old s ≡ suc (count_matches m old after)))

IsSplit-step :
    (n : ℕ) (old new s before after : Str) (c : ℕ)
    → strip_prefix old (c ∷ s) ≡ none
    → IsSplit n old new s before after
    → IsSplit (suc n) old new (c ∷ s) (c ∷ before) after
unfolding count_matches replace_first NoneStarts
IsSplit-step n old new s before after c e (p, q, early, (m, h, k)) =
    let miss : starts_with old (c ∷ s) ≡ false = starts_with-strip_prefix old (c ∷ s) e in
    (
      ap (λ t. c ∷ t) p,
      rw (e, replace_first) (ap (λ t. c ∷ t) q),
      (
        subst (λ t. starts_with old (c ∷ t) ≡ false) (p ∙ append_assoc before old after) miss,
        early,
      ),
      (m, h, rw (e, count_matches) k),
    )

-- Nothing is counted, or the text splits around its first match.
replace_first_lem :
    (n : ℕ) (old new s : Str)
    → 0 < length old
    → length s ≤ n
    → (count_matches n old s ≡ 0)
      ⊎ ((before : Str) × (after : Str) × IsSplit n old new s before after)
unfolding count_matches replace_first NoneStarts
replace_first_lem zero old new s k h = inl refl
replace_first_lem (suc n) old new [] k h = inl refl
replace_first_lem (suc n) old new (c ∷ s) k h = elim (Option-cases (strip_prefix old (c ∷ s))) [
  | inr (rest, e) ↦
      let shorter = length-rest old (c ∷ s) rest k e in
      let whole = strip_prefix-append old (c ∷ s) rest e in
      inr (
        [],
        rest,
        (whole, rw (e, replace_first) refl, tt, (n, omega arith, rw (e, count_matches) refl)),
      )
  | inl e ↦ elim (replace_first_lem n old new s k (omega arith)) [
    | inl none_there ↦ inl (rw (e, count_matches) none_there)
    | inr (before, after, split) ↦
        inr (c ∷ before, after, IsSplit-step n old new s before after c e split)
  ]
]

judge_matches_ok :
    (count : ℕ) (updated result : Str)
    → judge_matches count updated ≡ ok result
    → (count ≡ 1) × (updated ≡ result)
unfolding judge_matches
judge_matches_ok zero updated result h = cc
judge_matches_ok (suc zero) updated result h = (refl, cc)
judge_matches_ok (suc (suc n)) updated result h = cc

-- `updated` is the text with one occurrence of `old` replaced; none begins before it, and none lies
-- in the text after it.
abbrev pub IsReplaced : (s old new updated : Str) → Type 0
IsReplaced s old new updated =
    (before : Str) × (after : Str) × (s ≡ before ++ old ++ after)
    × (updated ≡ before ++ new ++ after)
    × NoneStarts old before (old ++ after)
    × (contains old after ≡ false)

-- One counted match is the whole of it.
pub replace_first-IsReplaced :
    (s old new : Str)
    → 0 < length old
    → count_matches (length s) old s ≡ 1
    → IsReplaced s old new (replace_first old new s)
replace_first-IsReplaced s old new k once =
    elim (replace_first_lem (length s) old new s k (omega arith)) [
      | inl never ↦ absurd (omega arith)
      | inr (before, after, (whole, made, early, (m, fuel, counted))) ↦ (
        before,
        after,
        whole,
        made,
        early,
        count_matches-contains m old after k fuel (omega arith),
      )
    ]

-- When a replacement is made, the text is `before`, the old text and `after`; no occurrence begins
-- in `before` and none lies in `after` (one that overlaps the replaced one is not a further match to
-- the code); and the result is the same with the new text in the place of the old.
pub apply_unique_replace_ok :
    (s old new updated : Str)
    → 0 < length old
    → apply_unique_replace s old new ≡ ok updated
    → (before : Str) × (after : Str) × (s ≡ before ++ old ++ after)
      × (updated ≡ before ++ new ++ after)
      × NoneStarts old before (old ++ after)
      × (contains old after ≡ false)
unfolding apply_unique_replace
apply_unique_replace_ok s old new updated k h =
    let (once, same) = judge_matches_ok _ _ updated h in
    let (before, after, whole, made, early, last) = replace_first-IsReplaced s old new k once in
    (before, after, whole, sym same ∙ made, early, last)
