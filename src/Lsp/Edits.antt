-- ===== src/Lsp/Edits.antt =====
-- `apply_text_edits` of src/lsp.rs.
use tux_bridge.Prelude.{
  ℕ, ◌-◌, Str, codes, Bool, true, false, ◌&&◌, ◌||◌, Option, none, some, List, [], ◌∷◌, ◌++◌,
  len_utf8, ltb, leb, ◌==◌, or_else, if◌then◌else◌,
}
use tux_bridge.Error.{
  ApiResult, ok, err, ◌>>=◌, ◌>>◌, refuse_if, ok_or, says, bad_request, conflict, unsupported,
}
use tux_bridge.Json.{Json, null, Items, nil, cons, get_field, as_str}
use tux_bridge.Lsp.Positions.{lsp_position_to_byte}

-- The tuple `(start, end, replacement)`.
pub record ByteEdit : Type 0 where
  pub start : ℕ
  pub stop : ℕ
  pub replacement : Str

-- `edit.get("newText").and_then(Value::as_str)`
unfoldable pub new_text : Json → Option Str
unfolding get_field as_str
new_text edit = elim (get_field (codes "newText") edit) [ none ↦ none | some value ↦ as_str value ]

-- The range and the text of an edit.
unfoldable pub range_of : Str → Json → ApiResult ByteEdit
unfolding get_field lsp_position_to_byte new_text
range_of text edit = do
  range ←
      ok_or (get_field (codes "range") edit)
        (unsupported (says "LSP InsertReplaceEdit is not supported yet"))
  start ← lsp_position_to_byte text (or_else (get_field (codes "start") range) null)
  stop ← lsp_position_to_byte text (or_else (get_field (codes "end") range) null)
  refuse_if (ltb stop start) (bad_request (says "LSP edit has an inverted range"))
  replacement ← ok_or (new_text edit) (bad_request (says "LSP text edit is missing newText"))
  ok (record { start = start; stop = stop; replacement = replacement })

unfoldable pub ranges_of : Str → Items → ApiResult (List ByteEdit)
unfolding range_of
ranges_of text nil = ok []
ranges_of text (cons edit edits) =
    let others = ranges_of text edits in
    range_of text edit >>= λ first. others >>= λ rest. ok (first ∷ rest)

-- `sort_by(…)`: later edits first, a stable sort.
unfoldable pub not_earlier : ByteEdit → ByteEdit → Bool
not_earlier left right =
    ltb right.start left.start || (left.start == right.start && leb right.stop left.stop)

unfoldable pub insert_edit : ByteEdit → List ByteEdit → List ByteEdit
unfolding not_earlier
insert_edit x [] = x ∷ []
insert_edit x (y ∷ ys) = elim (not_earlier x y) [ true ↦ x ∷ y ∷ ys | false ↦ y ∷ insert_edit x ys ]

unfoldable pub sort_edits : List ByteEdit → List ByteEdit
unfolding insert_edit
sort_edits [] = []
sort_edits (x ∷ xs) = insert_edit x (sort_edits xs)

-- The loop over `windows(2)`.
unfoldable pub has_overlap : List ByteEdit → Bool
has_overlap [] = false
has_overlap (x ∷ []) = false
has_overlap (x ∷ y ∷ rest) = ltb x.start y.stop || has_overlap (y ∷ rest)

-- A text at a byte, when that is a boundary of characters.
unfoldable pub split_byte : ℕ → Str → Option (Str × Str)
split_byte n [] = if n == 0 then some ([], []) else none
split_byte n (c ∷ s) =
    if n == 0
    then some ([], c ∷ s)
    else if ltb n (len_utf8 c)
    then none
    else elim (split_byte (n - len_utf8 c) s) [ none ↦ none | some (a, b) ↦ some (c ∷ a, b) ]

-- `is_char_boundary` of both ends, and `replace_range`.
unfoldable pub replace_range : ByteEdit → Str → Option Str
unfolding split_byte
replace_range edit updated = elim (split_byte edit.start updated) [
  | none ↦ none
  | some (before, rest) ↦ elim (split_byte edit.stop updated) [
    | none ↦ none
    | some (passed, after) ↦ some (before ++ (edit.replacement ++ after))
  ]
]

unfoldable pub apply_edits : List ByteEdit → Str → ApiResult Str
unfolding replace_range
apply_edits [] updated = ok updated
apply_edits (edit ∷ rest) updated = elim (replace_range edit updated) [
  | none ↦ err (bad_request (says "LSP edit resolved to a non-UTF-8 character boundary"))
  | some next ↦ apply_edits rest next
]

unfoldable pub apply_text_edits : Str → Items → ApiResult Str
unfolding ranges_of sort_edits has_overlap apply_edits
apply_text_edits text edits = do
  ranged ← ranges_of text edits
  refuse_if (has_overlap (sort_edits ranged))
      (conflict (says "LSP returned overlapping text edits"))
  apply_edits (sort_edits ranged) text
