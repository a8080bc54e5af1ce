-- ===== src/Ids/Wrap.antt =====
-- The sixteen digits of an identifier are those of its number as a `u64`.
use tux_bridge.Prelude.{ℕ, zero, suc, ◌*◌, ◌/◌, ◌%◌, ◌^◌, ◌<◌, ◌≡◌, refl, String, arith}
use native.Mathlib.Nat.{pow-suc}
use tux_bridge.Ids.{u64_mod, hex_digits, format_id}

last_digit : (x m : ℕ) → 0 < m → (x % (m * 16)) % 16 ≡ x % 16
last_digit x m h = grind arith

other_digits : (x m : ℕ) → 0 < m → (x % (m * 16)) / 16 ≡ (x / 16) % m
other_digits x m h = grind arith

power_pos : (n : ℕ) → 0 < 16 ^ n
power_pos zero = omega arith
power_pos (suc n) = let e = pow-suc 16 n in let h = power_pos n in omega arith

hex_digits-mod : (n x : ℕ) → hex_digits n (x % 16 ^ n) ≡ hex_digits n x
unfolding hex_digits
hex_digits-mod zero x = refl
hex_digits-mod (suc n) x =
    let positive = power_pos n in
    let low = last_digit x (16 ^ n) positive in
    let high = other_digits x (16 ^ n) positive in
    let power : 16 ^ suc n ≡ 16 ^ n * 16 = omega (arith, pow-suc 16 n) in
    rw (power, low, high, hex_digits-mod n (x / 16)) refl

-- A number that wraps has the identifier of what it wraps to.
pub format_id_wrap : (prefix : String) (n : ℕ) → format_id prefix (n % u64_mod) ≡ format_id prefix n
unfolding format_id
format_id_wrap prefix n = rw (hex_digits-mod 16 n) refl
