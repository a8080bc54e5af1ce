-- ===== src/Lsp/Positions.antt =====
-- The conversions of positions of src/lsp.rs.
use tux_bridge.Prelude.{
  ℕ, ◌+◌, ◌-◌, Str, codes, ◌&&◌, ◌||◌, Option, none, some, List, [], ◌∷◌, ◌++◌, get_elem?, len,
  len_utf8, len_utf16, ltb, ◌^◌, ◌==◌, split, if◌then◌else◌,
}
use tux_bridge.Prelude.Lines.{lines}
use tux_bridge.Error.{ApiResult, ok, err, ◌>>=◌, ◌>>◌, refuse_if, ok_or, says, bad_request}
use tux_bridge.Json.{Json, null, number, object, end, field, get_field}

-- `str::split_inclusive('\n')`, from the parts between line ends.
unfoldable pub inclusive_from : List Str → List Str
inclusive_from [] = []
inclusive_from (last ∷ []) = elim last [ [] ↦ [] | c ∷ r ↦ (c ∷ r) ∷ [] ]
inclusive_from (line ∷ next ∷ rest) = (line ++ 10 ∷ []) ∷ inclusive_from (next ∷ rest)

abbrev pub split_inclusive : Str → List Str
split_inclusive s = inclusive_from (split 10 s)

-- `bytes().filter(|byte| *byte == b'\n').count()`: no other character has that byte.
unfoldable pub newlines : Str → ℕ
newlines [] = 0
newlines (c ∷ s) = (if c == 10 then 1 else 0) + newlines s

-- `strip_suffix('\n').unwrap_or(…)`
unfoldable pub strip_newline : Str → Str
strip_newline [] = []
strip_newline (c ∷ []) = if c == 10 then [] else c ∷ []
strip_newline (c ∷ d ∷ s) = c ∷ strip_newline (d ∷ s)

-- The loop over the characters of a line: UTF-16 units, and characters seen.
unfoldable pub scan_scalars : ℕ → ℕ → ℕ → Str → ℕ × ℕ
scan_scalars scalar_index utf16 seen [] = (utf16, seen)
scan_scalars scalar_index utf16 seen (c ∷ s) =
    let more = scan_scalars scalar_index (utf16 + len_utf16 c) (seen + 1) s in
    if seen == scalar_index then (utf16, seen) else more

unfoldable pub agent_position_to_lsp : Str → ℕ → ℕ → ApiResult Json
unfolding scan_scalars
agent_position_to_lsp text line column = do
  refuse_if (line == 0 || column == 0)
      (bad_request (says "line and column are 1-based and must be >= 1"))
  source_line ←
      ok_or (get_elem? (lines text) (line - 1)) (bad_request (says "line is outside the document"))
  let (utf16, seen) = scan_scalars (column - 1) 0 0 source_line
  refuse_if (ltb seen (column - 1)) (bad_request (says "column is outside the line"))
  ok (
      object
        (field (codes "character") (number utf16) (field (codes "line") (number (line - 1)) end)))

-- `as_u64`
unfoldable pub as_u64 : Json → Option ℕ
as_u64 (number n) = if ltb n (2 ^ 64) then some n else none
as_u64 null = none
as_u64 _ = none

unfoldable pub number_field : Str → Json → Option ℕ
unfolding get_field as_u64
number_field name position = elim (get_field name position) [
  | none ↦ none
  | some value ↦ as_u64 value
]

-- The loop that looks for the line: `passed` is `text[..byte_base]`.
unfoldable pub seek_line : Str → ℕ → Str → List Str → ApiResult (ℕ × Str)
unfolding newlines
seek_line text line passed [] =
    if line == newlines text
    then ok (len passed, [])
    else err (bad_request (says "LSP line is outside the document"))
seek_line text line passed (value ∷ rest) =
    let later = seek_line text line (passed ++ value) rest in
    if (line == 0 && len passed == 0) || newlines passed == line
    then ok (len passed, value)
    else later

-- The loop over the characters of that line.
unfoldable pub walk_line : ℕ → ℕ → ℕ → Str → ApiResult ℕ
walk_line character utf16 byte_in_line [] =
    if utf16 == character
    then ok byte_in_line
    else err (bad_request (says "LSP character is outside the line"))
walk_line character utf16 byte_in_line (c ∷ s) =
    let later = walk_line character (utf16 + len_utf16 c) (byte_in_line + len_utf8 c) s in
    if utf16 == character
    then ok byte_in_line
    else if ltb character (utf16 + len_utf16 c)
    then err (bad_request (says "LSP character points into the middle of a UTF-16 surrogate pair"))
    else later

unfoldable pub lsp_position_to_byte : Str → Json → ApiResult ℕ
unfolding number_field inclusive_from seek_line strip_newline walk_line
lsp_position_to_byte text position = do
  line ←
      ok_or (number_field (codes "line") position)
        (bad_request (says "LSP position is missing line"))
  character ←
      ok_or (number_field (codes "character") position)
        (bad_request (says "LSP position is missing character"))
  (byte_base, source_line) ← seek_line text line [] (split_inclusive text)
  byte_in_line ← walk_line character 0 0 (strip_newline source_line)
  ok (byte_base + byte_in_line)
