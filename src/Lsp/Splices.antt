-- ===== src/Lsp/Splices.antt =====
-- Editing from the end is editing the original text everywhere at once.
use tux_bridge.Prelude.{
  ℕ, ◌+◌, ◌-◌, ◌≤◌, ◌≡◌, refl, sym, ap, ◌∙◌, subst, inl, inr, Str, false, none, some, List, [], ◌∷◌,
  ◌++◌, arith, codes, or_else, All, Bool-cases, Option-cases, append_assoc, append-nil, len,
  len_utf8, len-append, ltb, ◌==◌,
}
use mathlib.Core.List.{Perm}
use mathlib.Core.List.Perm
use tux_bridge.Error.{ApiError, ok, err, refuse_if, chain-Ran, ran, ok_inj, ok_or}
use tux_bridge.Json.{Json, null, Items, nil, cons, get_field}
use tux_bridge.Lsp.Positions.{lsp_position_to_byte}
use tux_bridge.Lsp.Edits.{
  ByteEdit, new_text, range_of, ranges_of, not_earlier, insert_edit, sort_edits, has_overlap,
  split_byte, replace_range, apply_edits, apply_text_edits,
}

-- The ranges of the edits, from the last to the first, are cut out of one text: what stands before a
-- range is edited by the rest, and what stands after it stays.
pub data IsEdited : Str → List ByteEdit → Str → Type 0 where
  unchanged : {s : Str} → IsEdited s [] s
  edited :
      {e : ByteEdit} {rest : List ByteEdit} (before middle after before' : Str)
      → e.start ≡ len before
      → e.stop ≡ len (before ++ middle)
      → IsEdited before rest before'
      → IsEdited (before ++ (middle ++ after)) (e ∷ rest) (before' ++ (e.replacement ++ after))

-- Each edit ends before the one that precedes it in the list starts.
unfoldable pub IsBelow : ℕ → List ByteEdit → Type 0
IsBelow n [] = Unit
IsBelow n (e ∷ rest) = (e.stop ≤ n) × (e.start ≤ e.stop) × IsBelow e.start rest

some_of : {A : Type 0} {x y : A} → some x ≡ some y → x ≡ y
some_of h = cc

nothing_of : {A : Type 0} {y : A} → none ≡ some y → ⊥
nothing_of h = cc

failed : {A : Type 0} {x : ApiError} {y : A} → err x ≡ ok y → ⊥
failed h = cc

utf8_pos : (c : ℕ) → 1 ≤ len_utf8 c
unfolding len_utf8
utf8_pos c = ground arith

split_byte_ok : (n : ℕ) (s a b : Str) → split_byte n s ≡ some (a, b) → (s ≡ a ++ b) × (len a ≡ n)
unfolding split_byte len
split_byte_ok n [] a b h = elim (Bool-cases (n == 0)) [
  | inl t ↦
      let same : ([], []) ≡ (a, b) = some_of (rw t at h) in
      subst (λ (x : Str × Str). ([] ≡ x.0 ++ x.1) × (len x.0 ≡ n)) same (refl, ground arith)
  | inr f ↦ absurd (ground arith)
]
split_byte_ok n (c ∷ s) a b h = elim (Bool-cases (n == 0)) [
  | inl t ↦
      let same : ([], c ∷ s) ≡ (a, b) = some_of (rw t at h) in
      subst (λ (x : Str × Str). (c ∷ s ≡ x.0 ++ x.1) × (len x.0 ≡ n)) same (refl, ground arith)
  | inr f ↦ elim (Bool-cases (ltb n (len_utf8 c))) [
    | inl t ↦ absurd (nothing_of (rw (f, split_byte, t) at h))
    | inr g ↦ elim (Option-cases (split_byte (n - len_utf8 c) s)) [
      | inl e ↦ absurd (nothing_of (rw (f, split_byte, g, e) at h))
      | inr ((a', b'), e) ↦
          let same : (c ∷ a', b') ≡ (a, b) = some_of (rw (f, split_byte, g, e) at h) in
          let (whole, long) = split_byte_ok (n - len_utf8 c) s a' b' e in
          subst (λ (x : Str × Str). (c ∷ s ≡ x.0 ++ x.1) × (len x.0 ≡ n)) same
            (ap (λ t. c ∷ t) whole, ground (arith, long))
    ]
  ]
]

shorter : (c d m n : ℕ) → c ≡ d → len_utf8 c + m ≤ len_utf8 d + n → m ≤ n
shorter c d m n e h = let same : len_utf8 c ≡ len_utf8 d = ap len_utf8 e in omega arith

-- Of two beginnings of a text, the shorter one begins the other.
prefix_of :
    (a b s t : Str) → a ++ b ≡ s ++ t → len a ≤ len s → (m : Str) × (s ≡ a ++ m) × (b ≡ m ++ t)
unfolding len
prefix_of [] b s t e h = (s, refl, e)
prefix_of (c ∷ a) b [] t e h = absurd (omega (arith, utf8_pos c))
prefix_of (c ∷ a) b (d ∷ s) t e h =
    let first : c ≡ d = cc in
    let tails : a ++ b ≡ s ++ t = cc in
    let (m, whole, rest) = prefix_of a b s t tails (shorter c d (len a) (len s) first h) in
    (m, rw (first, whole) refl, rest)

apply_edits-IsEdited :
    (edits : List ByteEdit) (s t result : Str)
    → IsBelow (len s) edits
    → apply_edits edits (s ++ t) ≡ ok result
    → (s' : Str) × IsEdited s edits s' × (result ≡ s' ++ t)
unfolding apply_edits replace_range IsBelow
apply_edits-IsEdited [] s t result below h = (s, unchanged, ok_inj h refl)
apply_edits-IsEdited (e ∷ rest) s t result (inside, forward, below) h =
    elim (Option-cases (split_byte e.start (s ++ t))) [
      | inl k ↦ absurd (failed (rw (k, apply_edits) at h))
      | inr ((a, b), k) ↦ elim (Option-cases (split_byte e.stop (s ++ t))) [
        | inl l ↦ absurd (failed (rw (k, apply_edits, l) at h))
        | inr ((p, q), l) ↦
            let (cut_a, long_a) = split_byte_ok e.start (s ++ t) a b k in
            let (cut_p, long_p) = split_byte_ok e.stop (s ++ t) p q l in
            let (after, split_s, split_q) =
              prefix_of p q s t (sym cut_p) (omega (arith, long_p, inside)) in
            let (middle, split_p, split_b) =
              prefix_of a b p q (sym cut_a ∙ cut_p) (omega (arith, long_a, long_p, forward)) in
            let (a', rest_of, answer) =
              apply_edits-IsEdited rest a (e.replacement ++ q) result
                (subst (λ n. IsBelow n rest) (sym long_a) below) (rw (k, apply_edits, l) at h) in
            let whole : s ≡ a ++ (middle ++ after) =
              split_s ∙ ap (λ x. x ++ after) split_p ∙ append_assoc a middle after in
            (
              a' ++ (e.replacement ++ after),
              subst (λ (x : Str). IsEdited x (e ∷ rest) (a' ++ (e.replacement ++ after)))
                  (sym whole)
                  (edited a middle after a' (sym long_a) (sym long_p ∙ ap len split_p) rest_of),
              answer
                  ∙ ap (λ x. a' ++ (e.replacement ++ x)) split_q
                  ∙ ap (λ x. a' ++ x) (sym (append_assoc e.replacement after t))
                  ∙ sym (append_assoc a' (e.replacement ++ after) t),
            )
      ]
    ]

abbrev IsForward : ByteEdit → Type 0
IsForward e = e.start ≤ e.stop

insert_edit-All :
    (x : ByteEdit) (ys : List ByteEdit)
    → IsForward x
    → All IsForward ys
    → All IsForward (insert_edit x ys)
unfolding insert_edit
insert_edit-All x [] h k = (h, tt)
insert_edit-All x (y ∷ ys) h (k, ks) = elim (Bool-cases (not_earlier x y)) [
  | inl t ↦ rw (t, insert_edit) (h, (k, ks))
  | inr f ↦ rw (f, insert_edit) (k, insert_edit-All x ys h ks)
]

sort_edits-All : (xs : List ByteEdit) → All IsForward xs → All IsForward (sort_edits xs)
unfolding sort_edits
sort_edits-All [] h = tt
sort_edits-All (x ∷ xs) (h, hs) = insert_edit-All x (sort_edits xs) h (sort_edits-All xs hs)

insert_edit-Perm : (x : ByteEdit) (ys : List ByteEdit) → Perm (insert_edit x ys) (x ∷ ys)
unfolding insert_edit
insert_edit-Perm x [] = Perm.rfl
insert_edit-Perm x (y ∷ ys) = elim (Bool-cases (not_earlier x y)) [
  | inl t ↦ rw (t, insert_edit) Perm.rfl
  | inr f ↦
      rw (f, insert_edit) (Perm.trans (Perm.cons y (insert_edit-Perm x ys)) (Perm.swap x y ys))
]

sort_edits-Perm : (xs : List ByteEdit) → Perm (sort_edits xs) xs
unfolding sort_edits
sort_edits-Perm [] = Perm.rfl
sort_edits-Perm (x ∷ xs) =
    Perm.trans (insert_edit-Perm x (sort_edits xs)) (Perm.cons x (sort_edits-Perm xs))

range_of-IsForward :
    (text : Str) (edit : Json) (e : ByteEdit) → range_of text edit ≡ ok e → IsForward e
unfolding range_of
range_of-IsForward text edit e h = elim (chain-Ran (ok_or (get_field (codes "range") edit) _) _ h) [
  | ran range e1 h1 ↦
      elim (chain-Ran (lsp_position_to_byte text (or_else (get_field (codes "start") range) null)) _
        h1) [
          | ran start e2 h2 ↦
              elim (chain-Ran
                (lsp_position_to_byte text (or_else (get_field (codes "end") range) null)) _ h2) [
                  | ran stop e3 h3 ↦ elim (chain-Ran (refuse_if (ltb stop start) _) _ h3) [
                    | ran d e4 h4 ↦ elim (chain-Ran (ok_or (new_text edit) _) _ h4) [
                      | ran replacement e5 h5 ↦
                          let forward : start ≤ stop = ground arith in
                          subst IsForward (ok_inj refl h5) forward
                    ]
                  ]
                ]
        ]
]

ranges_of-IsForward :
    (text : Str) (edits : Items) (es : List ByteEdit)
    → ranges_of text edits ≡ ok es
    → All IsForward es
unfolding ranges_of
ranges_of-IsForward text nil es h = subst (All IsForward) (ok_inj refl h) tt
ranges_of-IsForward text (cons edit edits) es h = elim (chain-Ran (range_of text edit) _ h) [
  | ran first e1 h1 ↦ elim (chain-Ran (ranges_of text edits) _ h1) [
    | ran rest e2 h2 ↦
        subst (All IsForward) (ok_inj refl h2)
          (range_of-IsForward text edit first e1, ranges_of-IsForward text edits rest e2)
  ]
]

chain-IsBelow :
    (n : ℕ) (e : ByteEdit) (rest : List ByteEdit)
    → e.stop ≤ n
    → has_overlap (e ∷ rest) ≡ false
    → All IsForward (e ∷ rest)
    → IsBelow n (e ∷ rest)
unfolding has_overlap IsBelow
chain-IsBelow n e [] h k (f, fs) = (h, f, tt)
chain-IsBelow n e (y ∷ rest) h k (f, fs) =
    (h, f, chain-IsBelow e.start y rest (ground arith) (ground arith) fs)

in_text : (n : ℕ) (s a b : Str) → s ≡ a ++ b → len a ≡ n → n ≤ len s
in_text n s a b e k = let whole : len s ≡ len (a ++ b) = ap len e in omega (arith, len-append a b)

apply_edits-IsBelow :
    (edits : List ByteEdit) (text result : Str)
    → has_overlap edits ≡ false
    → All IsForward edits
    → apply_edits edits text ≡ ok result
    → IsBelow (len text) edits
unfolding IsBelow apply_edits replace_range
apply_edits-IsBelow [] text result apart forward h = tt
apply_edits-IsBelow (e ∷ rest) text result apart forward h =
    elim (Option-cases (split_byte e.stop text)) [
      | inr ((p, q), l) ↦
          let (cut, long) = split_byte_ok e.stop text p q l in
          chain-IsBelow (len text) e rest (in_text e.stop text p q cut long) apart forward
      | inl l ↦ elim (Option-cases (split_byte e.start text)) [
        | inl k ↦ absurd (failed (rw (k, apply_edits) at h))
        | inr ((a, b), k) ↦ absurd (failed (rw (k, apply_edits, l) at h))
      ]
    ]

-- Where `apply_text_edits` succeeds, each edit has a range of bytes that is not inverted; in the order
-- in which they are applied, which is a permutation of the given one, the ranges do not overlap; and
-- the answer is the original text with all the ranges replaced at once.
pub apply_text_edits-IsEdited :
    (text : Str) (edits : Items) (result : Str)
    → apply_text_edits text edits ≡ ok result
    → (ranged : List ByteEdit) × (ranges_of text edits ≡ ok ranged)
      × Perm (sort_edits ranged) ranged
      × IsBelow (len text) (sort_edits ranged)
      × IsEdited text (sort_edits ranged) result
unfolding apply_text_edits
apply_text_edits-IsEdited text edits result h = elim (chain-Ran (ranges_of text edits) _ h) [
  | ran ranged e1 h1 ↦ elim (chain-Ran (refuse_if (has_overlap (sort_edits ranged)) _) _ h1) [
    | ran d e2 h2 ↦
        let apart : has_overlap (sort_edits ranged) ≡ false = ground arith in
        let forward = sort_edits-All ranged (ranges_of-IsForward text edits ranged e1) in
        let below = apply_edits-IsBelow (sort_edits ranged) text result apart forward h2 in
        let (s', whole, answer) =
          apply_edits-IsEdited (sort_edits ranged) text [] result below
            (ap (apply_edits (sort_edits ranged)) (append-nil text) ∙ h2) in
        (
          ranged,
          e1,
          sort_edits-Perm ranged,
          below,
          subst (λ (x : Str). IsEdited text (sort_edits ranged) x) (sym (answer ∙ append-nil s'))
              whole,
        )
  ]
]
