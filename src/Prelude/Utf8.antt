-- ===== src/Prelude/Utf8.antt =====
-- `str::as_bytes` and `str::from_utf8` on scalar values.
pub mod Prefix
use Prim.Native.Nat.{ℕ, zero, suc, ◌+◌, ◌-◌, ◌*◌, ◌/◌, ◌%◌, ◌<◌}
use mathlib.Core.Path.{◌≡◌, refl}
use mathlib.Core.Bool.{Bool, true, false, ◌&&◌, ◌||◌}
use mathlib.Core.List.{List, [], ◌∷◌, ◌++◌}
use mathlib.Core.Option.{Option, none, some}
use native.Mathlib.Omega.{arith}
use tux_bridge.Prelude.Tests.{ltb, leb, ◌==◌, if◌then◌else◌}
use tux_bridge.Prelude.Lists.{All, All-append, all, length}
use tux_bridge.Prelude.Text.{Str}

abbrev pub Bytes : Type 0
Bytes = List ℕ

unfoldable pub encode : ℕ → Bytes
encode c =
    if ltb c 0x80
    then c ∷ []
    else if ltb c 0x800
    then (0xc0 + c / 64) ∷ (0x80 + c % 64) ∷ []
    else if ltb c 0x10000
    then (0xe0 + c / 4096) ∷ (0x80 + c / 64 % 64) ∷ (0x80 + c % 64) ∷ []
    else (0xf0 + c / 262144) ∷ (0x80 + c / 4096 % 64) ∷ (0x80 + c / 64 % 64) ∷ (0x80 + c % 64) ∷ []

unfoldable pub as_bytes : Str → Bytes
unfolding encode
as_bytes [] = []
as_bytes (c ∷ s) = encode c ++ as_bytes s

-- The characters of a Rust string.
abbrev pub is_scalar : ℕ → Bool
is_scalar c = ltb c 0xd800 || (leb 0xe000 c && ltb c 0x110000)

abbrev pub IsText : Str → Type 0
IsText = All (λ c. is_scalar c ≡ true)

abbrev pub AreBytes : Bytes → Type 0
AreBytes = All (λ b. b < 256)

abbrev is_continuation : ℕ → Bool
is_continuation b = leb 0x80 b && ltb b 0xc0

-- The first character of some bytes, and the bytes after it. `short` is the beginning of a character
-- that the bytes end in (`error_len()` is `None`), `bad` any other error.
pub data Head : Type 0 where
  finished short bad : Head
  char : ℕ → Bytes → Head

unfoldable pub two : ℕ → Bytes → Head
two a [] = short
two a (b ∷ r) = if is_continuation b then char ((a - 0xc0) * 64 + (b - 0x80)) r else bad

-- The second byte of three: no overlong form, no surrogate.
abbrev second_of_three : ℕ → ℕ → Bool
second_of_three a b =
    if a == 0xe0
    then leb 0xa0 b && ltb b 0xc0
    else if a == 0xed
    then leb 0x80 b && ltb b 0xa0
    else is_continuation b

unfoldable pub three : ℕ → Bytes → Head
three a [] = short
three a (b ∷ []) = if second_of_three a b then short else bad
three a (b ∷ c ∷ r) =
    if second_of_three a b && is_continuation c
    then char ((a - 0xe0) * 4096 + (b - 0x80) * 64 + (c - 0x80)) r
    else bad

-- The second byte of four: no overlong form, nothing above U+10FFFF.
abbrev second_of_four : ℕ → ℕ → Bool
second_of_four a b =
    if a == 0xf0
    then leb 0x90 b && ltb b 0xc0
    else if a == 0xf4
    then leb 0x80 b && ltb b 0x90
    else is_continuation b

unfoldable pub four : ℕ → Bytes → Head
four a [] = short
four a (b ∷ []) = if second_of_four a b then short else bad
four a (b ∷ c ∷ []) = if second_of_four a b && is_continuation c then short else bad
four a (b ∷ c ∷ d ∷ r) =
    if second_of_four a b && is_continuation c && is_continuation d
    then char ((a - 0xf0) * 262144 + (b - 0x80) * 4096 + (c - 0x80) * 64 + (d - 0x80)) r
    else bad

unfoldable pub next_char : Bytes → Head
unfolding two three four
next_char [] = finished
next_char (a ∷ bs) =
    if ltb a 0x80
    then char a bs
    else if leb 0xc2 a && ltb a 0xe0
    then two a bs
    else if leb 0xe0 a && ltb a 0xf0
    then three a bs
    else if leb 0xf0 a && ltb a 0xf5
    then four a bs
    else bad

-- `str::from_utf8`: text; or text up to the beginning of a character at the end; or another error.
pub data Decoded : Type 0 where
  valid cut : Str → Decoded
  broken : Decoded

abbrev pub push_char : ℕ → Decoded → Decoded
push_char c (valid s) = valid (c ∷ s)
push_char c (cut s) = cut (c ∷ s)
push_char c broken = broken

unfoldable pub decode_fuel : ℕ → Bytes → Decoded
unfolding next_char
decode_fuel zero bs = broken
decode_fuel (suc n) bs = elim (next_char bs) [
  | finished ↦ valid []
  | short ↦ cut []
  | bad ↦ broken
  | char c r ↦ push_char c (decode_fuel n r)
]

-- Every round takes at least one byte.
unfoldable pub decode : Bytes → Decoded
unfolding decode_fuel
decode bs = decode_fuel (suc (length bs)) bs

unfoldable pub from_utf8 : Bytes → Option Str
unfolding decode
from_utf8 bs = elim (decode bs) [ valid s ↦ some s | cut s ↦ none | broken ↦ none ]

encode-AreBytes : (c : ℕ) → is_scalar c ≡ true → AreBytes (encode c)
unfolding encode
encode-AreBytes c h = ground arith

pub as_bytes-AreBytes : (s : Str) → IsText s → AreBytes (as_bytes s)
unfolding as_bytes
as_bytes-AreBytes [] h = tt
as_bytes-AreBytes (c ∷ s) h =
    All-append (λ b. b < 256) _ _ (encode-AreBytes c h.0) (as_bytes-AreBytes s h.1)

test : from_utf8 (as_bytes (97 ∷ 128512 ∷ 233 ∷ 8364 ∷ [])) ≡ some (97 ∷ 128512 ∷ 233 ∷ 8364 ∷ [])
unfolding from_utf8 as_bytes
test = refl

pub all→IsText : (s : Str) → all is_scalar s ≡ true → IsText s
all→IsText [] h = tt
all→IsText (c ∷ s) h = (ground arith, all→IsText s (ground arith))
