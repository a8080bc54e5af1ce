-- ===== src/Prelude/Utf8/Prefix.antt =====
-- What `decode` reads is a prefix of the bytes, and what is left is less than a character.
use Prim.Native.Nat.{ℕ, zero, suc, ◌≤◌, ◌<◌}
use mathlib.Core.Path.{◌≡◌, refl, ap, ◌∙◌, sym}
use mathlib.Core.Logic.{inl, inr, ◌⊎◌}
use mathlib.Core.Bool.{◌&&◌}
use mathlib.Core.List.{[], ◌∷◌, ◌++◌, append_assoc}
use native.Mathlib.Omega.{arith}
use tux_bridge.Prelude.Tests.{ltb, leb, Bool-cases}
use tux_bridge.Prelude.Lists.{length}
use tux_bridge.Prelude.Text.{Str}
use tux_bridge.Prelude.Utf8.{
  Bytes, encode, as_bytes, Head, finished, short, bad, char, two, three, four, next_char, Decoded,
  valid, cut, broken, push_char, decode_fuel, decode,
}

two_lem :
    (a : ℕ) (bs : Bytes) (c : ℕ) (r : Bytes)
    → 0xc2 ≤ a
    → a < 0xe0
    → two a bs ≡ char c r
    → a ∷ bs ≡ encode c ++ r
unfolding two encode
two_lem a [] c r p q h = cc
two_lem a (x ∷ bs) c r p q h = ground arith

three_lem :
    (a : ℕ) (bs : Bytes) (c : ℕ) (r : Bytes)
    → 0xe0 ≤ a
    → a < 0xf0
    → three a bs ≡ char c r
    → a ∷ bs ≡ encode c ++ r
unfolding three encode
three_lem a [] c r p q h = cc
three_lem a (x ∷ []) c r p q h = ground arith
three_lem a (x ∷ y ∷ bs) c r p q h = ground arith

four_lem :
    (a : ℕ) (bs : Bytes) (c : ℕ) (r : Bytes)
    → 0xf0 ≤ a
    → a < 0xf5
    → four a bs ≡ char c r
    → a ∷ bs ≡ encode c ++ r
unfolding four encode
four_lem a [] c r p q h = cc
four_lem a (x ∷ []) c r p q h = ground arith
four_lem a (x ∷ y ∷ []) c r p q h = ground arith
four_lem a (x ∷ y ∷ z ∷ bs) c r p q h = ground arith

next_char_lem : (bs : Bytes) (c : ℕ) (r : Bytes) → next_char bs ≡ char c r → bs ≡ encode c ++ r
unfolding next_char
next_char_lem [] c r h = cc
next_char_lem (a ∷ bs) c r h = elim (Bool-cases (ltb a 0x80)) [
  | inl low ↦ unfold encode in ground arith
  | inr not_low ↦ elim (Bool-cases (leb 0xc2 a && ltb a 0xe0)) [
    | inl t ↦ two_lem a bs c r (ground arith) (ground arith) (rw (not_low, t, next_char) at h)
    | inr f ↦ elim (Bool-cases (leb 0xe0 a && ltb a 0xf0)) [
      | inl t ↦
          three_lem a bs c r (ground arith) (ground arith) (rw (not_low, f, t, next_char) at h)
      | inr g ↦ elim (Bool-cases (leb 0xf0 a && ltb a 0xf5)) [
        | inl t ↦
            four_lem a bs c r (ground arith) (ground arith) (rw (not_low, f, g, t, next_char) at h)
        | inr k ↦ absurd (ground arith)
      ]
    ]
  ]
]

two_short : (a : ℕ) (bs : Bytes) → two a bs ≡ short → length bs ≤ 2
unfolding two
two_short a [] h = omega arith
two_short a (x ∷ bs) h = absurd (ground arith)

three_short : (a : ℕ) (bs : Bytes) → three a bs ≡ short → length bs ≤ 2
unfolding three
three_short a [] h = omega arith
three_short a (x ∷ []) h = omega arith
three_short a (x ∷ y ∷ bs) h = absurd (ground arith)

four_short : (a : ℕ) (bs : Bytes) → four a bs ≡ short → length bs ≤ 2
unfolding four
four_short a [] h = omega arith
four_short a (x ∷ []) h = omega arith
four_short a (x ∷ y ∷ []) h = omega arith
four_short a (x ∷ y ∷ z ∷ bs) h = absurd (ground arith)

next_char_short : (bs : Bytes) → next_char bs ≡ short → length bs ≤ 3
unfolding next_char
next_char_short [] h = cc
next_char_short (a ∷ bs) h = ground (arith, two_short a bs, three_short a bs, four_short a bs)

next_char_finished : (bs : Bytes) → next_char bs ≡ finished → bs ≡ []
unfolding next_char two three four
next_char_finished [] h = refl
next_char_finished (a ∷ []) h = absurd (ground arith)
next_char_finished (a ∷ x ∷ []) h = absurd (ground arith)
next_char_finished (a ∷ x ∷ y ∷ []) h = absurd (ground arith)
next_char_finished (a ∷ x ∷ y ∷ z ∷ bs) h = absurd (ground arith)

-- The text that was read, whether it is all or not, and what is left.
abbrev pub text_of : Decoded → Str
text_of (valid s) = s
text_of (cut s) = s
text_of broken = []

abbrev pub IsPrefixOf : Decoded → Bytes → Type 0
IsPrefixOf (valid s) bs = bs ≡ as_bytes s
IsPrefixOf (cut s) bs = (rest : Bytes) × (bs ≡ as_bytes s ++ rest) × (length rest ≤ 3)
IsPrefixOf broken bs = Unit

push_char-IsPrefixOf :
    (c : ℕ) (d : Decoded) (bs r : Bytes)
    → bs ≡ encode c ++ r
    → IsPrefixOf d r
    → IsPrefixOf (push_char c d) bs
unfolding as_bytes
push_char-IsPrefixOf c (valid s) bs r e h = e ∙ ap (λ t. encode c ++ t) h
push_char-IsPrefixOf c (cut s) bs r e (rest, h, k) =
    (rest, e ∙ ap (λ t. encode c ++ t) h ∙ sym (append_assoc (encode c) (as_bytes s) rest), k)
push_char-IsPrefixOf c broken bs r e h = tt

-- To split on the head with its equation.
Head-cases :
    (h : Head) → (h ≡ finished) ⊎ (h ≡ short) ⊎ (h ≡ bad) ⊎ ((c : ℕ) × (r : Bytes) × (h ≡ char c r))
Head-cases finished = inl refl
Head-cases short = inr (inl refl)
Head-cases bad = inr (inr (inl refl))
Head-cases (char c r) = inr (inr (inr (c, r, refl)))

decode_fuel-IsPrefixOf : (n : ℕ) (bs : Bytes) → IsPrefixOf (decode_fuel n bs) bs
unfolding decode_fuel as_bytes
decode_fuel-IsPrefixOf zero bs = tt
decode_fuel-IsPrefixOf (suc n) bs = elim (Head-cases (next_char bs)) [
  | inl e ↦ rw (e, decode_fuel) (next_char_finished bs e)
  | inr (inl e) ↦ rw (e, decode_fuel) (bs, refl, next_char_short bs e)
  | inr (inr (inl e)) ↦ rw (e, decode_fuel) tt
  | inr (inr (inr (c, r, e))) ↦
      rw (e, decode_fuel)
        (push_char-IsPrefixOf c (decode_fuel n r) bs r (next_char_lem bs c r e)
          (decode_fuel-IsPrefixOf n r))
]

pub decode-IsPrefixOf : (bs : Bytes) → IsPrefixOf (decode bs) bs
unfolding decode
decode-IsPrefixOf bs = decode_fuel-IsPrefixOf (suc (length bs)) bs
