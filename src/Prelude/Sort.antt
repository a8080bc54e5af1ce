-- ===== src/Prelude/Sort.antt =====
-- `sort_by` with a key, and the order of `str`: by scalar values, which is the order of the bytes.
use mathlib.Core.Bool.{Bool, true, false}
use mathlib.Core.List.{List, [], ◌∷◌}
use tux_bridge.Prelude.Tests.{if◌then◌else◌, ltb, ◌==◌}
use tux_bridge.Prelude.Text.{Str}

unfoldable pub le_str : Str → Str → Bool
le_str [] t = true
le_str (a ∷ s) [] = false
le_str (a ∷ s) (b ∷ t) = if a == b then le_str s t else ltb a b

module _ {A : Type 0} (key : A → Str) where
  -- After the elements with the same key: the sort is stable.
  unfoldable pub insert_sorted : A → List A → List A
  unfolding le_str
  insert_sorted x [] = x ∷ []
  insert_sorted x (y ∷ ys) = elim (le_str (key x) (key y)) [
    | true ↦ x ∷ y ∷ ys
    | false ↦ y ∷ insert_sorted x ys
  ]

  unfoldable pub sort_by : List A → List A
  unfolding insert_sorted
  sort_by [] = []
  sort_by (x ∷ xs) = insert_sorted x (sort_by xs)
