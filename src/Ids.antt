-- ===== src/Ids.antt =====
-- The identifiers `tb-…`, `approval-…`, `job-…`, `edit-…`: a prefix and `{:016x}` of a counter
-- (src/state.rs, src/approvals.rs, src/command.rs, src/sessions.rs).
pub mod Distinct
pub mod Wrap
mod Tests
use tux_bridge.Prelude.{
  ℕ, zero, suc, ◌+◌, ◌-◌, ◌/◌, ◌%◌, ◌^◌, String, Str, codes, List, [], ◌∷◌, ◌++◌, length, ltb, ◌==◌,
  if◌then◌else◌,
}

-- A `u64` counter wraps on `fetch_add`.
abbrev pub u64_mod : ℕ
u64_mod = 2 ^ 64

unfoldable pub hex_digit : ℕ → ℕ
hex_digit d = if ltb d 10 then b'0' + d else b'a' + d - 10

-- The lowest `n` hexadecimal digits, most significant first. Sixteen of them hold every `u64`.
unfoldable pub hex_digits : ℕ → ℕ → Str
unfolding hex_digit
hex_digits zero x = []
hex_digits (suc n) x = hex_digits n (x / 16) ++ hex_digit (x % 16) ∷ []

-- `format!("{prefix}{sequence:016x}")`
unfoldable pub format_id : String → ℕ → Str
unfolding hex_digits
format_id prefix sequence = codes prefix ++ hex_digits 16 sequence

-- `next.fetch_add(1, Ordering::Relaxed) + 1` on `u64`: the id's number, and the counter that is left.
-- Both additions wrap in a release build; a debug build panics on the second at 2^64 - 1.
unfoldable pub fetch_next : ℕ → ℕ × ℕ
fetch_next next = let sequence = (next + 1) % u64_mod in (sequence, sequence)
