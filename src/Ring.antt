-- ===== src/Ring.antt =====
-- The bounded logs of src/audit.rs and src/events.rs: `push_back`, then `pop_front` while the deque
-- is longer than its limit.
use tux_bridge.Prelude.{
  ℕ, ◌+◌, ◌-◌, ◌≤◌, ◌≡◌, refl, ap, ◌∙◌, List, [], ◌∷◌, ◌++◌, zero, suc, length, length-append, drop,
  length-drop, ltb, if◌then◌else◌, arith, Bool-cases, inl, inr, ltb→lt, ltb→le,
}

module _ {ℓ} {A : Type ℓ} where
  -- `while deque.len() > max { deque.pop_front(); }`
  unfoldable pub pop_while_over : ℕ → List A → List A
  pop_while_over max [] = []
  pop_while_over max (x ∷ xs) = if ltb max (length (x ∷ xs)) then pop_while_over max xs else x ∷ xs

  unfoldable pub push_bounded : ℕ → List A → A → List A
  unfolding pop_while_over
  push_bounded max xs x = pop_while_over max (xs ++ x ∷ [])

  -- The newest `max` elements.
  abbrev pub newest : ℕ → List A → List A
  newest max xs = drop (length xs - max) xs

module _ {ℓ} {A : Type ℓ} where
  pop_while_over-newest : (max : ℕ) (xs : List A) → pop_while_over max xs ≡ newest max xs
  unfolding pop_while_over
  pop_while_over-newest max [] = drop_nil (0 - max)
    where
      drop_nil : (n : ℕ) → [] ≡ drop {A = A} n []
      drop_nil zero = refl
      drop_nil (suc n) = refl
  pop_while_over-newest max (x ∷ xs) = elim (Bool-cases (ltb max (suc (length xs)))) [
    | inl over ↦
        let e : suc (length xs) - max ≡ suc (length xs - max) = omega (arith, ltb→lt _ _ over) in
        rw (over, e) (pop_while_over-newest max xs)
    | inr within ↦
        let e : suc (length xs) - max ≡ 0 = omega (arith, ltb→le _ _ within) in rw (within, e) refl
  ]

  drop-append-drop :
      (a b : ℕ) (xs ys : List A)
      → b ≤ length xs
      → drop a (drop b xs ++ ys) ≡ drop (b + a) (xs ++ ys)
  drop-append-drop a zero xs ys h = ap (λ n. drop n (xs ++ ys)) (omega arith)
  drop-append-drop a (suc b) [] ys h = absurd (omega arith)
  drop-append-drop a (suc b) (x ∷ xs) ys h =
      let e : suc b + a ≡ suc (b + a) = omega arith in
      rw e (drop-append-drop a b xs ys (omega arith))

  -- Pushing on the newest elements of a history keeps the newest elements of the longer history.
  pub push_bounded-newest :
      (max : ℕ) (xs : List A) (x : A)
      → push_bounded max (newest max xs) x ≡ newest max (xs ++ x ∷ [])
  unfolding push_bounded
  push_bounded-newest max xs x =
      let k = length xs - max in
      let n = length (drop k xs ++ x ∷ []) - max in
      pop_while_over-newest max (drop k xs ++ x ∷ [])
      ∙ drop-append-drop n k xs (x ∷ []) (omega arith)
      ∙ ap (λ i. drop i (xs ++ x ∷ []))
          (omega (
            arith,
            length-append (drop k xs) (x ∷ []),
            length-append xs (x ∷ []),
            length-drop k xs,
          ))

  pub length-newest : (max : ℕ) (xs : List A) → length (newest max xs) ≤ max
  length-newest max xs = omega (arith, length-drop (length xs - max) xs)
