-- ===== src/Prelude/Lines.antt =====
-- `str::lines`, and `join("\n")`.
use mathlib.Core.List.{List, [], ◌∷◌, ◌++◌, reverse}
use tux_bridge.Prelude.Tests.{◌==◌, if◌then◌else◌}
use tux_bridge.Prelude.Text.{Str, split}

-- Without the line ends `\n` and `\r\n`; no line after the last line end.
unfoldable pub strip_cr : Str → Str
strip_cr line = elim (reverse line) [ [] ↦ [] | c ∷ r ↦ if c == 13 then reverse r else line ]

unfoldable pub lines_from : List Str → List Str
unfolding strip_cr
lines_from [] = []
lines_from (last ∷ []) = elim last [ [] ↦ [] | c ∷ r ↦ (c ∷ r) ∷ [] ]
lines_from (line ∷ next ∷ rest) = strip_cr line ∷ lines_from (next ∷ rest)

abbrev pub lines : Str → List Str
lines s = lines_from (split 10 s)

unfoldable pub join_lines : List Str → Str
join_lines [] = []
join_lines (line ∷ []) = line
join_lines (line ∷ next ∷ rest) = line ++ 10 ∷ join_lines (next ∷ rest)
