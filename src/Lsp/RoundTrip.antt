-- ===== src/Lsp/RoundTrip.antt =====
-- An agent's position, as the protocol's, is the byte where the agent meant.
use tux_bridge.Prelude.{
  ℕ, zero, suc, ◌+◌, ◌-◌, ◌*◌, ◌^◌, ◌≤◌, ◌<◌, ◌≡◌, refl, sym, ap, ◌∙◌, subst, inl, inr, ◌⊎◌, Str,
  codes, true, false, ◌||◌, some, [], ◌∷◌, ◌++◌, arith, append_assoc, eq_str, length, get_elem?,
  len, len_utf8, len_utf16, len-append, ltb, ◌==◌, split,
}
use tux_bridge.Prelude.Lines.{lines}
use tux_bridge.Error.{ok, ◌>>=◌, refuse_if, ok_or, ok_or-some, chain-Ran, ran, ok_inj}
use tux_bridge.Json.{Json, number, object, end, field, get_field, find_field}
use tux_bridge.Lsp.Positions.{
  scan_scalars, agent_position_to_lsp, lsp_position_to_byte, number_field, as_u64, seek_line,
  walk_line, strip_newline, split_inclusive, newlines,
}
use tux_bridge.Lsp.Lines.{split_at-flat, IsStart, IsSought, seek_line-IsSought}

-- The UTF-16 units of a text.
pub utf16_units : Str → ℕ
utf16_units [] = 0
utf16_units (c ∷ s) = len_utf16 c + utf16_units s

unit_le : (c : ℕ) → (1 ≤ len_utf16 c) × (len_utf16 c ≤ 2)
unfolding len_utf16
unit_le c = (ground arith, ground arith)

-- The scan of a line: it stops at the character that is asked for, or at the end.
scan_scalars_lem :
    (index n utf16 seen : ℕ) (line : Str)
    → index ≡ seen + n
    → ((scan_scalars index utf16 seen line).1 < index)
      ⊎ ((before : Str) × (after : Str) × (line ≡ before ++ after)
          × (length before ≡ n)
          × ((scan_scalars index utf16 seen line).0 ≡ utf16 + utf16_units before))
unfolding scan_scalars utf16_units
scan_scalars_lem index zero utf16 seen [] h = inr ([], [], refl, refl, omega arith)
scan_scalars_lem index (suc n) utf16 seen [] h = inl (omega arith)
scan_scalars_lem index zero utf16 seen (c ∷ s) h =
    let stops : (seen == index) ≡ true = ground arith in
    inr ([], c ∷ s, refl, refl, rw stops (omega arith))
scan_scalars_lem index (suc n) utf16 seen (c ∷ s) h =
    let goes : (seen == index) ≡ false = ground arith in
    rw (goes, scan_scalars)
      (elim (scan_scalars_lem index n (utf16 + len_utf16 c) (seen + 1) s (omega arith)) [
        | inl h ↦ inl h
        | inr (before, after, e, k, u) ↦
            inr (c ∷ before, after, ap (λ x. c ∷ x) e, omega (arith, k), omega (arith, u))
      ])

walk_line_lem :
    (character utf16 byte : ℕ) (before after : Str)
    → character ≡ utf16 + utf16_units before
    → walk_line character utf16 byte (before ++ after) ≡ ok (byte + len before)
unfolding walk_line utf16_units len
walk_line_lem character utf16 byte [] [] h = ground arith
walk_line_lem character utf16 byte [] (c ∷ s) h = ground arith
walk_line_lem character utf16 byte (c ∷ before) after h =
    let (low, high) = unit_le c in
    let goes : (utf16 == character) ≡ false = ground (arith, low) in
    let whole : ltb character (utf16 + len_utf16 c) ≡ false = ground arith in
    let later =
      walk_line_lem character (utf16 + len_utf16 c) (byte + len_utf8 c) before after
        (omega arith) in
    rw (goes, walk_line, whole) (later ∙ ap ok (omega arith))

utf16_units_le : (s : Str) → utf16_units s ≤ 2 * length s
unfolding utf16_units
utf16_units_le [] = omega arith
utf16_units_le (c ∷ s) = omega (arith, (unit_le c).1, utf16_units_le s)

-- The answer of `agent_position_to_lsp`, read back.
IsRead : Json → ℕ → ℕ → Type 0
IsRead position line character =
    (number_field (codes "line") position ≡ some line)
    × (number_field (codes "character") position ≡ some character)

reads_back :
    (line character : ℕ)
    → line < 2 ^ 64
    → character < 2 ^ 64
    → IsRead
        (object
          (field (codes "character") (number character) (field (codes "line") (number line) end)))
        line
        character
unfolding IsRead number_field get_field find_field as_u64 eq_str
reads_back line character h k = (ground arith, ground arith)

walk_found :
    (character : ℕ) (value l before rest tail : Str)
    → strip_newline value ≡ l ++ tail
    → l ≡ before ++ rest
    → character ≡ 0 + utf16_units before
    → walk_line character 0 0 (strip_newline value) ≡ ok (len before)
walk_found character value l before rest tail chopped cut units =
    rw (chopped, cut, append_assoc before rest tail)
      (walk_line_lem character 0 0 before (rest ++ tail) units ∙ ap ok (omega arith))

byte_at :
    (text : Str) (position : Json) (line character base n : ℕ) (value : Str)
    → IsRead position line character
    → seek_line text line [] (split_inclusive text) ≡ ok (base, value)
    → walk_line character 0 0 (strip_newline value) ≡ ok n
    → lsp_position_to_byte text position ≡ ok (base + n)
unfolding lsp_position_to_byte IsRead
byte_at text position line character base n value (e, f) sought walked =
    rw (e, f, sought, ◌>>=◌, walked) refl

-- An agent's line and column, counted from 1 in characters, become a position of the protocol, counted
-- from 0 in UTF-16 units; where that succeeds, reading it gives the byte offset of the character meant:
-- `start` is the text up to the beginning of that line, and `before` the characters before the column.
pub agent_position_round_trip :
    (text : Str) (line column : ℕ) (position : Json)
    → line < 2 ^ 32
    → column < 2 ^ 32
    → agent_position_to_lsp text line column ≡ ok position
    → (start : Str) × (before : Str) × (rest : Str) × (after : Str) × (get_elem?
          (lines text)
          (line - 1)
        ≡ some (before ++ rest))
      × (text ≡ start ++ (before ++ after))
      × (newlines start ≡ line - 1)
      × IsStart start
      × (length before ≡ column - 1)
      × (lsp_position_to_byte text position ≡ ok (len (start ++ before)))
unfolding agent_position_to_lsp IsSought newlines
agent_position_round_trip text line column position small narrow h =
    elim (chain-Ran (refuse_if (line == 0 || column == 0) _) _ h) [
      | ran d1 e1 h1 ↦ elim (chain-Ran (ok_or (get_elem? (lines text) (line - 1)) _) _ h1) [
        | ran l e2 h2 ↦
            elim (chain-Ran (refuse_if (ltb (scan_scalars (column - 1) 0 0 l).1 (column - 1)) _) _
              h2) [
                | ran d3 e3 h3 ↦
                    elim (scan_scalars_lem (column - 1) (column - 1) 0 0 l (omega arith)) [
                      | inl short ↦ absurd (ground arith)
                      | inr (before, rest, cut, k, units) ↦
                          let found = ok_or-some (get_elem? (lines text) (line - 1)) _ l e2 in
                          let (whole, good) = split_at-flat [] text refl in
                          let (start, value, tail, after, sought, count, starts, chopped, all) =
                            seek_line-IsSought text (line - 1) (line - 1) 0 [] (split 10 text) l
                              good refl (omega arith) found in
                          let (utf16, seen) = scan_scalars (column - 1) 0 0 l in
                          let few : utf16 < 2 ^ 64 =
                            omega (arith, units, utf16_units_le before, k) in
                          let walked : walk_line utf16 0 0 (strip_newline value) ≡ ok (len before) =
                            walk_found utf16 value l before rest tail chopped cut units in
                          let read = reads_back (line - 1) utf16 (omega arith) few in
                          let answered =
                            byte_at text _ (line - 1) utf16 (len start) (len before) value read
                              sought walked in
                          let content : text ≡ start ++ (before ++ (rest ++ (tail ++ after))) =
                            sym whole
                            ∙ all
                            ∙ ap (λ x. start ++ (x ++ (tail ++ after))) cut
                            ∙ ap (λ x. start ++ x) (append_assoc before rest (tail ++ after)) in
                          (
                            start,
                            before,
                            rest,
                            rest ++ (tail ++ after),
                            found ∙ ap some cut,
                            content,
                            count,
                            starts,
                            k,
                            subst
                                (λ (p : Json).
                                  lsp_position_to_byte text p ≡ ok (len (start ++ before)))
                                (ok_inj refl h3) (answered ∙ ap ok (sym (len-append start before))),
                          )
                    ]
              ]
      ]
    ]
