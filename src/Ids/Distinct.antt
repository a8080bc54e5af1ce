-- ===== src/Ids/Distinct.antt =====
-- Two counter values below 2^64 never share an identifier.
use tux_bridge.Prelude.{
  ℕ, zero, suc, ◌/◌, ◌%◌, ◌^◌, ◌<◌, ◌≡◌, refl, String, Str, codes, [], ◌∷◌, ◌++◌, arith,
}
use native.Mathlib.Nat.{pow-suc}
use tux_bridge.Ids.{hex_digit, hex_digits, format_id}

hex_digit_inj : (c d : ℕ) → c < 16 → d < 16 → hex_digit c ≡ hex_digit d → c ≡ d
unfolding hex_digit
hex_digit_inj c d p q e = ground arith

append_inj_right : (p s t : Str) → p ++ s ≡ p ++ t → s ≡ t
append_inj_right [] s t e = e
append_inj_right (x ∷ p) s t e = append_inj_right p s t (cc)

snoc_inj : (s t : Str) {c d : ℕ} → s ++ c ∷ [] ≡ t ++ d ∷ [] → (s ≡ t) × (c ≡ d)
snoc_inj [] [] e = (refl, cc)
snoc_inj [] (y ∷ []) e = cc
snoc_inj [] (y ∷ z ∷ t) e = cc
snoc_inj (x ∷ []) [] e = cc
snoc_inj (x ∷ z ∷ s) [] e = cc
snoc_inj (x ∷ s) (y ∷ t) {c} {d} e =
    let rest : s ++ c ∷ [] ≡ t ++ d ∷ [] = cc in
    let (p, q) = snoc_inj s t rest in let head : x ≡ y = cc in (cc, q)

hex_digits_inj : (n x y : ℕ) → x < 16 ^ n → y < 16 ^ n → hex_digits n x ≡ hex_digits n y → x ≡ y
unfolding hex_digits
hex_digits_inj zero x y p q e = omega arith
hex_digits_inj (suc n) x y p q e =
    let (high, low) = snoc_inj (hex_digits n (x / 16)) (hex_digits n (y / 16)) e in
    let power = pow-suc 16 n in
    let upper : x / 16 ≡ y / 16 =
      hex_digits_inj n (x / 16) (y / 16) (omega (arith, power)) (omega (arith, power)) high in
    let lower : x % 16 ≡ y % 16 = hex_digit_inj _ _ (omega arith) (omega arith) low in omega arith

-- Distinct counter values have distinct identifiers under one prefix.
pub format_id_inj :
    (prefix : String) (x y : ℕ)
    → x < 2 ^ 64
    → y < 2 ^ 64
    → format_id prefix x ≡ format_id prefix y
    → x ≡ y
unfolding format_id
format_id_inj prefix x y p q e = hex_digits_inj 16 x y p q (append_inj_right (codes prefix) _ _ e)
