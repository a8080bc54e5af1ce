-- ===== src/Auth/ConstantTime.antt =====
-- `constant_time_eq` of src/auth.rs decides equality of byte strings.
use Prim.Native.Nat.{bit_or, bit_xor}
use tux_bridge.Prelude.{
  ℕ, zero, suc, ◌≡◌, ◌↔◌, ◌<◌, refl, Bytes, AreBytes, Bool, true, false, not, ◌&&◌, [], ◌∷◌, length,
  ◌==◌, ltb, arith, Bool-cases, inl, inr, ap,
}
use tux_bridge.Auth.{difference, constant_time_eq}

-- A test passes at every number under a bound.
passes_under : (ℕ → Bool) → ℕ → Bool
passes_under test zero = true
passes_under test (suc k) = passes_under test k && test k

passes_under_at :
    (test : ℕ → Bool) (k : ℕ) {i : ℕ} → i < k → passes_under test k ≡ true → test i ≡ true
unfolding passes_under
passes_under_at test zero lt h = absurd (omega arith)
passes_under_at test (suc k) {i} lt h = elim (Bool-cases (i == k)) [
  | inl last ↦ ground arith
  | inr before ↦ passes_under_at test k (ground arith) (ground arith)
]

same : Bool → Bool → Bool
same true b = b
same false b = not b

byte_law : ℕ → ℕ → Bool
byte_law a b =
    ltb (bit_xor a b) 256
    && ltb (bit_or a b) 256
    && same (bit_xor a b == 0) (a == b)
    && same (bit_or a b == 0) ((a == 0) && (b == 0))

byte_table : passes_under (λ a. passes_under (byte_law a) 256) 256 ≡ true
unfolding passes_under byte_law same
byte_table = refl

byte_laws : (a b : ℕ) → a < 256 → b < 256 → byte_law a b ≡ true
byte_laws a b p q =
    passes_under_at (byte_law a) 256 q
      (passes_under_at (λ a. passes_under (byte_law a) 256) 256 p byte_table)

xor_law : (a b : ℕ) → a < 256 → b < 256 → (bit_xor a b < 256) × ((bit_xor a b ≡ 0) ↔ (a ≡ b))
unfolding byte_law same
xor_law a b p q = ground (arith, byte_laws a b p q)

or_law :
    (a b : ℕ) → a < 256 → b < 256 → (bit_or a b < 256) × ((bit_or a b ≡ 0) ↔ ((a ≡ 0) × (b ≡ 0)))
unfolding byte_law same
or_law a b p q = ground (arith, byte_laws a b p q)

difference-eq-zero :
    (diff : ℕ) (left right : Bytes)
    → diff < 256
    → AreBytes left
    → AreBytes right
    → length left ≡ length right
    → (difference diff left right ≡ 0) ↔ ((diff ≡ 0) × (left ≡ right))
unfolding difference
difference-eq-zero diff [] [] d hl hr e = ground arith
difference-eq-zero diff [] (b ∷ right) d hl hr e = absurd (omega arith)
difference-eq-zero diff (a ∷ left) [] d hl hr e = absurd (omega arith)
difference-eq-zero diff (a ∷ left) (b ∷ right) d hl hr e =
    let (small, equal) = xor_law a b hl.0 hr.0 in
    let (bounded, zeros) = or_law diff (bit_xor a b) d small in
    let (to, from) =
      difference-eq-zero (bit_or diff (bit_xor a b)) left right bounded hl.1 hr.1 (omega arith) in
    (
      λ none_set.
          let (or_zero, rest) = to none_set in
          let (diff_zero, xor_zero) = zeros.0 or_zero in (diff_zero, cc (equal.0 xor_zero)),
      λ (diff_zero, both).
          let heads : a ≡ b = cc in
          let tails : left ≡ right = cc in from (zeros.1 (diff_zero, equal.1 heads), tails),
    )

-- The comparison without early exit accepts exactly the equal byte strings.
pub constant_time_eq_iff :
    (left right : Bytes)
    → AreBytes left
    → AreBytes right
    → (constant_time_eq left right ≡ true) ↔ (left ≡ right)
unfolding constant_time_eq
constant_time_eq_iff left right hl hr = elim (Bool-cases (length left == length right)) [
  | inr differ ↦ (λ h. absurd (ground arith), λ e. absurd (ground (arith, ap length e)))
  | inl equal ↦
      let (to, from) = difference-eq-zero 0 left right (omega arith) hl hr (ground arith) in
      (λ h. (to (ground arith)).1, λ e. let zero_diff = from (refl, e) in ground arith)
]
