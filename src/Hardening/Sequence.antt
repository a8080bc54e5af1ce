-- ===== src/Hardening/Sequence.antt =====
-- The sequence number that src/hardening.rs reads back from a request id.
use tux_bridge.Prelude.{
  ℕ, zero, suc, ◌+◌, ◌*◌, ◌/◌, ◌%◌, ◌^◌, ◌<◌, ◌≡◌, refl, ap, ◌∙◌, Str, Bool, true, ◌&&◌, ◌||◌, leb,
  some, Option, [], ◌∷◌, ◌++◌, length, length-append, All, arith, strip_prefix, Option-cases, inl,
  inr,
}
use native.Mathlib.Nat.{pow-suc}
use tux_bridge.Ids.{hex_digit, hex_digits, format_id, u64_mod}
use tux_bridge.Hardening.{digit_value, append_digit, read_digits, from_hex, trim_tag, sequence_of}

digit_value-hex_digit : (d : ℕ) → d < 16 → digit_value (hex_digit d) ≡ some d
unfolding digit_value hex_digit
digit_value-hex_digit d h = ground arith

-- Reading `s` and then one more digit.
read_digits-snoc :
    (v : Option ℕ) (s : Str) (d w : ℕ)
    → d < 16
    → read_digits v s ≡ some w
    → w * 16 + d < u64_mod
    → read_digits v (s ++ hex_digit d ∷ []) ≡ some (w * 16 + d)
unfolding read_digits append_digit
read_digits-snoc v [] d w lt h fits = ground (arith, digit_value-hex_digit d lt)
read_digits-snoc v (c ∷ s) d w lt h fits = elim (Option-cases (digit_value c)) [
  | inl none_there ↦ absurd (ground arith)
  | inr (e, value) ↦ ground (arith, read_digits-snoc (append_digit v e) s d w lt)
]

read_digits-hex_digits :
    (n x : ℕ) → x < 16 ^ n → x < u64_mod → read_digits (some 0) (hex_digits n x) ≡ some x
unfolding hex_digits
read_digits-hex_digits zero x p q = unfold read_digits in ap some (omega arith)
read_digits-hex_digits (suc n) x p q =
    let power = pow-suc 16 n in
    let high = read_digits-hex_digits n (x / 16) (omega (arith, power)) (omega arith) in
    read_digits-snoc (some 0) (hex_digits n (x / 16)) (x % 16) (x / 16) (omega arith) high
      (omega arith)
    ∙ ap some (omega arith)

-- The digits that `{:x}` writes.
abbrev is_lower_hex : ℕ → Bool
is_lower_hex c = (leb b'0' c && leb c b'9') || (leb b'a' c && leb c b'f')

abbrev IsHex : Str → Type 0
IsHex = All (λ c. is_lower_hex c ≡ true)

IsHex-snoc : (s : Str) (d : ℕ) → IsHex s → is_lower_hex d ≡ true → IsHex (s ++ d ∷ [])
IsHex-snoc [] d h k = (k, tt)
IsHex-snoc (c ∷ s) d h k = (h.0, IsHex-snoc s d h.1 k)

hex_digit-is_lower_hex : (d : ℕ) → d < 16 → is_lower_hex (hex_digit d) ≡ true
unfolding hex_digit
hex_digit-is_lower_hex d h = ground arith

hex_digits-IsHex : (n x : ℕ) → IsHex (hex_digits n x)
unfolding hex_digits
hex_digits-IsHex zero x = tt
hex_digits-IsHex (suc n) x =
    IsHex-snoc _ _ (hex_digits-IsHex n (x / 16)) (hex_digit-is_lower_hex (x % 16) (omega arith))

length-hex_digits : (n x : ℕ) → length (hex_digits n x) ≡ n
unfolding hex_digits
length-hex_digits zero x = refl
length-hex_digits (suc n) x = omega (
  arith,
  length-append (hex_digits n (x / 16)) (hex_digit (x % 16) ∷ []),
  length-hex_digits n (x / 16),
)

trim_tag_hex : (k : ℕ) (s : Str) → IsHex s → trim_tag k s ≡ s
unfolding trim_tag strip_prefix
trim_tag_hex zero s h = refl
trim_tag_hex (suc k) [] h = refl
trim_tag_hex (suc k) (c ∷ s) h = ground arith

from_hex_digits : (s : Str) → IsHex s → 0 < length s → from_hex s ≡ read_digits (some 0) s
unfolding from_hex
from_hex_digits [] h k = absurd (omega arith)
from_hex_digits (c ∷ s) h k = ground arith

-- The sequence number read back from a request id is the number that the id was made from.
pub sequence_of-format_id : (n : ℕ) → n < u64_mod → sequence_of (format_id "tb-" n) ≡ n
unfolding sequence_of format_id trim_tag strip_prefix
sequence_of-format_id n h =
    let digits = hex_digits-IsHex 16 n in
    let whole = length-hex_digits 16 n in
    let trimmed = trim_tag_hex (suc (suc (length (hex_digits 16 n)))) (hex_digits 16 n) digits in
    let read =
      from_hex_digits (hex_digits 16 n) digits (omega arith)
      ∙ read_digits-hex_digits 16 n (omega arith) h in
    rw (trimmed, read)
