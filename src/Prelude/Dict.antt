-- ===== src/Prelude/Dict.antt =====
-- `HashMap<String, _>` and `BTreeMap<String, _>` as association lists; `insert` overwrites in place.
use mathlib.Core.Path.{◌≡◌, refl, subst}
use mathlib.Core.Logic.{inl, inr}
use mathlib.Core.List.{List, [], ◌∷◌}
use mathlib.Core.Option.{Option, none, some}
use Prim.Native.Nat.{ℕ, ◌+◌, ◌≤◌}
use tux_bridge.Prelude.Lists.{All, length}
use native.Mathlib.Omega.{arith}
use tux_bridge.Prelude.Tests.{if◌then◌else◌, Bool-cases, Option-cases}
use tux_bridge.Prelude.Text.{Str, eq_str, eq_str_iff}

abbrev pub Dict {ℓ} : Type ℓ → Type ℓ
Dict V = List (Str × V)

module _ {ℓ} {V : Type ℓ} where
  unfoldable pub get : Str → Dict V → Option V
  get k [] = none
  get k ((j, v) ∷ m) = if eq_str j k then some v else get k m

  unfoldable pub insert : Str → V → Dict V → Dict V
  insert k v [] = (k, v) ∷ []
  insert k v ((j, w) ∷ m) = if eq_str j k then (j, v) ∷ m else (j, w) ∷ insert k v m

  unfoldable pub values : Dict V → List V
  values [] = []
  values ((k, v) ∷ m) = v ∷ values m

  pub get-insert :
      (k j : Str) (v : V) (m : Dict V)
      → get j (insert k v m) ≡ (if eq_str k j then some v else get j m)
  unfolding get insert
  get-insert k j v [] = refl
  get-insert k j v ((i, w) ∷ m) =
      ground (arith, eq_str_iff k j, eq_str_iff i k, eq_str_iff i j, get-insert k j v m)

  -- What `insert` writes is what is found, or is added.
  pub All-insert {κ} :
      (P : V → Type κ) (k : Str) (v : V) (m : Dict V)
      → All (λ (e : Str × V). P e.1) m
      → P v
      → All (λ (e : Str × V). P e.1) (insert k v m)
  unfolding insert
  All-insert P k v [] h p = (p, tt)
  All-insert P k v ((j, w) ∷ m) (q, h) p = elim (Bool-cases (eq_str j k)) [
    | inl t ↦ rw t (p, h)
    | inr f ↦ rw f (q, All-insert P k v m h p)
  ]

  pub All-get {κ} :
      (P : V → Type κ) (k : Str) (v : V) (m : Dict V)
      → All (λ (e : Str × V). P e.1) m
      → get k m ≡ some v
      → P v
  unfolding get
  All-get P k v [] h e = cc
  All-get P k v ((j, w) ∷ m) (q, h) e = elim (Bool-cases (eq_str j k)) [
    | inl t ↦ let found : w ≡ v = ground arith in subst P found q
    | inr f ↦ All-get P k v m h (ground arith)
  ]

-- A sum over the values, and how `insert` changes it.
module _ {ℓ} {V : Type ℓ} (f : V → ℕ) where
  unfoldable pub sum_by : Dict V → ℕ
  sum_by [] = 0
  sum_by ((k, v) ∷ m) = f v + sum_by m

  pub sum_by-insert_new :
      (k : Str) (v : V) (m : Dict V) → get k m ≡ none → sum_by (insert k v m) ≡ sum_by m + f v
  unfolding sum_by get insert
  sum_by-insert_new k v [] h = omega arith
  sum_by-insert_new k v ((j, w) ∷ m) h = elim (Bool-cases (eq_str j k)) [
    | inl t ↦ absurd (ground arith)
    | inr e ↦ rw e (omega (arith, sum_by-insert_new k v m (rw e at h)))
  ]

  pub sum_by-insert_old :
      (k : Str) (v w : V) (m : Dict V)
      → get k m ≡ some w
      → sum_by (insert k v m) + f w ≡ sum_by m + f v
  unfolding sum_by get insert
  sum_by-insert_old k v w [] h = cc
  sum_by-insert_old k v w ((j, u) ∷ m) h = elim (Bool-cases (eq_str j k)) [
    | inl t ↦ let found : u ≡ w = ground arith in rw (t, found) (omega arith)
    | inr e ↦ rw e (omega (arith, sum_by-insert_old k v w m (rw e at h)))
  ]

  pub sum_by-insert_le : (k : Str) (v : V) (m : Dict V) → sum_by (insert k v m) ≤ sum_by m + f v
  sum_by-insert_le k v m = elim (Option-cases (get k m)) [
    | inl e ↦ omega (arith, sum_by-insert_new k v m e)
    | inr (w, e) ↦ omega (arith, sum_by-insert_old k v w m e)
  ]

module _ {ℓ} {V : Type ℓ} where
  pub length-sum_by : (m : Dict V) → length m ≡ sum_by (λ v. 1) m
  unfolding sum_by
  length-sum_by [] = refl
  length-sum_by ((k, v) ∷ m) = omega (arith, length-sum_by m)
