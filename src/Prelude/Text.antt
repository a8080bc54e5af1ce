-- ===== src/Prelude/Text.antt =====
-- Text as a list of Unicode scalar values, with what the program uses of `str`.
use Prim.Native.Nat.{ℕ, ◌+◌}
use Prim.Native.Char.{code}
use Prim.Native.String.{String}
use mathlib.Core.Path.{◌≡◌, refl}
use mathlib.Core.Logic.{◌↔◌}
use mathlib.Core.Bool.{Bool, true, false, ◌&&◌, ◌||◌}
use mathlib.Core.List.{List, [], ◌∷◌, ◌++◌, reverse}
use mathlib.Core.Option.{Option, none, some}
use native.Mathlib.Omega.{arith}
use tux_bridge.Prelude.Tests.{ltb, leb, ◌==◌, if◌then◌else◌}

abbrev pub Str : Type 0
Str = List ℕ

abbrev pub codes : String → Str
codes String.[] = []
codes (String.◌∷◌ c s) = code c ∷ codes s

unfoldable pub eq_str : Str → Str → Bool
eq_str [] [] = true
eq_str [] (b ∷ t) = false
eq_str (a ∷ s) [] = false
eq_str (a ∷ s) (b ∷ t) = (a == b) && eq_str s t

pub eq_str→eq : (s t : Str) → eq_str s t ≡ true → s ≡ t
unfolding eq_str
eq_str→eq [] [] h = refl
eq_str→eq [] (b ∷ t) h = cc
eq_str→eq (a ∷ s) [] h = cc
eq_str→eq (a ∷ s) (b ∷ t) h = ground (arith, eq_str→eq s t)

pub eq_str_self : (s : Str) → eq_str s s ≡ true
unfolding eq_str
eq_str_self [] = refl
eq_str_self (a ∷ s) = ground (arith, eq_str_self s)

pub eq_str_iff : (s t : Str) → (eq_str s t ≡ true) ↔ (s ≡ t)
eq_str_iff s t = (eq_str→eq s t, λ e. rw e (eq_str_self t))

-- `char::len_utf8`, `char::len_utf16` and `str::len`.
unfoldable pub len_utf8 : ℕ → ℕ
len_utf8 c = if ltb c 0x80 then 1 else if ltb c 0x800 then 2 else if ltb c 0x10000 then 3 else 4

unfoldable pub len_utf16 : ℕ → ℕ
len_utf16 c = if ltb c 0x10000 then 1 else 2

unfoldable pub len : Str → ℕ
unfolding len_utf8
len [] = 0
len (c ∷ s) = len_utf8 c + len s

pub len-append : (s t : Str) → len (s ++ t) ≡ len s + len t
unfolding len
len-append [] t = omega arith
len-append (c ∷ s) t = omega (arith, len-append s t)

-- `char::is_ascii_whitespace`, and `char::is_whitespace` (the White_Space property).
unfoldable pub is_ascii_whitespace : ℕ → Bool
is_ascii_whitespace c = (c == 32) || (c == 9) || (c == 10) || (c == 12) || (c == 13)

unfoldable pub is_whitespace : ℕ → Bool
is_whitespace c =
    (leb 9 c && leb c 13)
    || (c == 32)
    || (c == 0x85)
    || (c == 0xa0)
    || (c == 0x1680)
    || (leb 0x2000 c && leb c 0x200a)
    || (c == 0x2028)
    || (c == 0x2029)
    || (c == 0x202f)
    || (c == 0x205f)
    || (c == 0x3000)

-- `char::is_control` (the category Cc).
abbrev pub is_control : ℕ → Bool
is_control c = ltb c 32 || (leb 127 c && leb c 159)

abbrev pub is_ascii_alphanumeric : ℕ → Bool
is_ascii_alphanumeric c =
    (leb b'0' c && leb c b'9') || (leb b'A' c && leb c b'Z') || (leb b'a' c && leb c b'z')

unfoldable pub to_ascii_lowercase : Str → Str
to_ascii_lowercase [] = []
to_ascii_lowercase (c ∷ s) = (if leb b'A' c && leb c b'Z' then c + 32 else c) ∷ to_ascii_lowercase s

abbrev pub eq_ignore_ascii_case : Str → Str → Bool
eq_ignore_ascii_case s t = eq_str (to_ascii_lowercase s) (to_ascii_lowercase t)

-- `starts_with`, `strip_prefix`, `ends_with`.
unfoldable pub strip_prefix : Str → Str → Option Str
strip_prefix [] s = some s
strip_prefix (p ∷ ps) [] = none
strip_prefix (p ∷ ps) (c ∷ s) = if p == c then strip_prefix ps s else none

unfoldable pub starts_with : Str → Str → Bool
starts_with [] s = true
starts_with (p ∷ ps) [] = false
starts_with (p ∷ ps) (c ∷ s) = (p == c) && starts_with ps s

unfoldable pub ends_with : Str → Str → Bool
unfolding starts_with
ends_with suffix s = starts_with (reverse suffix) (reverse s)

unfoldable pub contains : Str → Str → Bool
unfolding starts_with
contains needle [] = starts_with needle []
contains needle (c ∷ s) = starts_with needle (c ∷ s) || contains needle s

-- `trim_start_matches` by a test, and `trim`.
unfoldable pub trim_start : (ℕ → Bool) → Str → Str
trim_start p [] = []
trim_start p (c ∷ s) = if p c then trim_start p s else c ∷ s

unfoldable pub trim_end : (ℕ → Bool) → Str → Str
unfolding trim_start
trim_end p s = reverse (trim_start p (reverse s))

unfoldable pub trim_matches : (ℕ → Bool) → Str → Str
unfolding trim_start trim_end
trim_matches p s = trim_end p (trim_start p s)

abbrev pub trim : Str → Str
trim s = trim_matches is_whitespace s

-- `split` at a character: always at least one part.
unfoldable pub split_at : ℕ → Str → Str → List Str
split_at sep cur [] = cur ∷ []
split_at sep cur (c ∷ s) = elim (c == sep) [
  | true ↦ cur ∷ split_at sep [] s
  | false ↦ split_at sep (cur ++ c ∷ []) s
]

abbrev pub split : ℕ → Str → List Str
split sep s = split_at sep [] s
