-- ===== src/Lsp/Tests.antt =====
-- Positions and edits in a text of two lines, "x𝄞y" and "z".
use tux_bridge.Prelude.{
  ℕ, ◌≡◌, ◌-◌, Option, none, some, false, if◌then◌else◌, as_bytes, from_utf8, refl, Str, codes,
  List, [], ◌∷◌, ◌++◌, arith, length, get_elem?, len, split_at, eq_str, len_utf16,
}
use tux_bridge.Prelude.Lines.{lines, lines_from, strip_cr}
use mathlib.Core.List.{Perm}
use tux_bridge.Prelude.Sort.{sort_by}
use tux_bridge.Error.{ok}
use tux_bridge.Json.{Json, Items, nil, cons, array, number, string, object, end, field}
use tux_bridge.Paths.{
  PathBuf, root_dir, normal, is_under, parent, relative_display, strip_root, to_string,
}
use tux_bridge.Host.Memory.{Files, memory, put, look, canonical, new_temp, rename}
use tux_bridge.Mutation.Write.{begin_temp}
use tux_bridge.Lsp.Workspace.{apply_workspace_edit}
use tux_bridge.Lsp.Positions.{agent_position_to_lsp, lsp_position_to_byte, newlines}
use tux_bridge.Lsp.Lines.{IsStart}
use tux_bridge.Lsp.RoundTrip.{agent_position_round_trip}
use tux_bridge.Lsp.Edits.{ByteEdit, ranges_of, sort_edits, apply_text_edits}
use tux_bridge.Lsp.Splices.{IsBelow, IsEdited, apply_text_edits-IsEdited}

abbrev document : Str
document = codes "x" ++ 119070 ∷ codes "y" ++ 10 ∷ codes "z"

abbrev position : ℕ → ℕ → Json
position line character =
    object (field (codes "character") (number character) (field (codes "line") (number line) end))

gate : Unit {0}
unfolding agent_position_to_lsp lsp_position_to_byte lines_from strip_cr apply_text_edits eq_str
    split_at len len_utf16
gate = tt

converts : agent_position_to_lsp document 1 3 ≡ ok (position 0 3)
unfolding gate
converts = refl

in_bytes : lsp_position_to_byte document (position 0 3) ≡ ok 5
unfolding gate
in_bytes = refl

agent_position_round_trip_example :
    (start : Str) × (before : Str) × (rest : Str) × (after : Str) × (get_elem?
        (lines document)
        (1 - 1)
      ≡ some (before ++ rest))
    × (document ≡ start ++ (before ++ after))
    × (newlines start ≡ 1 - 1)
    × IsStart start
    × (length before ≡ 3 - 1)
    × (lsp_position_to_byte document (position 0 3) ≡ ok (len (start ++ before)))
agent_position_round_trip_example =
    agent_position_round_trip document 1 3 (position 0 3) (omega arith) (omega arith) converts

abbrev edit : Json → Json → Str → Json
edit start stop new = object (
    field (codes "newText") (string new) (
      field (codes "range") (object (field (codes "end") stop (field (codes "start") start end)))
        end))

-- The first and the last character are replaced.
abbrev edits : Items
edits =
    cons (edit (position 0 0) (position 0 1) (codes "ab"))
      (cons (edit (position 1 0) (position 1 1) (codes "")) nil)

abbrev edited_document : Str
edited_document = codes "ab" ++ 119070 ∷ codes "y" ++ 10 ∷ []

edits_both : apply_text_edits document edits ≡ ok edited_document
unfolding gate
edits_both = refl

-- Two insertions at one place come out in the opposite order.
abbrev insertions : Items
insertions =
    cons (edit (position 1 0) (position 1 0) (codes "first"))
      (cons (edit (position 1 0) (position 1 0) (codes "second")) nil)

inserts_backwards : apply_text_edits (10 ∷ codes "z") insertions ≡ ok (10 ∷ codes "secondfirstz")
unfolding gate
inserts_backwards = refl

apply_text_edits-IsEdited_example :
    (ranged : List ByteEdit) × (ranges_of document edits ≡ ok ranged)
    × Perm (sort_edits ranged) ranged
    × IsBelow (len document) (sort_edits ranged)
    × IsEdited document (sort_edits ranged) edited_document
apply_text_edits-IsEdited_example =
    apply_text_edits-IsEdited document edits edited_document edits_both

-- The same edits through a workspace edit, on the host of Host/Memory.
abbrev root : PathBuf
root = root_dir ∷ normal (codes "srv") ∷ []

abbrev place : PathBuf
place = root ++ normal (codes "a") ∷ []

abbrev uri_path : Str → Option (Option PathBuf)
uri_path uri = if eq_str uri (codes "file:a") then some (some place) else none

abbrev disk : Files
disk = put place (some (as_bytes document)) (λ p. none)

abbrev workspace_edit : Json
workspace_edit =
    object (field (codes "changes") (object (field (codes "file:a") (array edits) end)) end)

workspace_gate : Unit {0}
unfolding gate put look canonical is_under parent new_temp rename apply_workspace_edit
    relative_display strip_root to_string sort_by begin_temp from_utf8 as_bytes
workspace_gate = tt

edits_file :
    (apply_workspace_edit memory uri_path (codes "s") root workspace_edit false disk).1 place
    ≡ some (as_bytes edited_document)
unfolding workspace_gate
edits_file = refl
