-- ===== src/Paths.antt =====
-- `std::path` on Linux as far as the handlers of files use it. A path is the list of its components,
-- by which `Path` compares and prefixes are stripped; a file name is text.
use tux_bridge.Prelude.{
  Str, codes, Bool, true, false, ◌&&◌, ◌||◌, Option, none, some, List, [], ◌∷◌, ◌++◌, any, is_empty,
  if◌then◌else◌, eq_str, eq_str_self, split, ◌==◌, ◌≡◌, refl, arith, append-nil,
}

pub data Component : Type 0 where
  root_dir cur_dir parent_dir : Component
  normal : Str → Component

abbrev pub PathBuf : Type 0
PathBuf = List Component

-- One part between two `/`; empty parts and `.` vanish.
unfoldable pub add_part : Str → PathBuf → PathBuf
add_part s rest =
    if is_empty s || eq_str s (codes ".")
    then rest
    else if eq_str s (codes "..")
    then parent_dir ∷ rest
    else normal s ∷ rest

unfoldable pub add_parts : List Str → PathBuf
unfolding add_part
add_parts [] = []
add_parts (s ∷ rest) = add_part s (add_parts rest)

-- A `.` in front of a relative path stays.
unfoldable pub relative_parts : List Str → PathBuf
unfolding add_parts
relative_parts [] = []
relative_parts (s ∷ rest) =
    if eq_str s (codes ".") then cur_dir ∷ add_parts rest else add_parts (s ∷ rest)

-- `Path::components`
unfoldable pub components : Str → PathBuf
unfolding relative_parts
components [] = []
components (c ∷ s) =
    if c == b'/' then root_dir ∷ add_parts (split b'/' s) else relative_parts (split b'/' (c ∷ s))

unfoldable pub is_absolute : PathBuf → Bool
is_absolute (root_dir ∷ p) = true
is_absolute _ = false

-- `Path::join`: an absolute path replaces the base.
unfoldable pub join : PathBuf → PathBuf → PathBuf
join base [] = base
join base (root_dir ∷ p) = root_dir ∷ p
join [] (cur_dir ∷ p) = cur_dir ∷ p
join (b ∷ base) (cur_dir ∷ p) = (b ∷ base) ++ p
join base (parent_dir ∷ p) = base ++ parent_dir ∷ p
join base (normal s ∷ p) = base ++ normal s ∷ p

unfoldable pub same_component : Component → Component → Bool
same_component root_dir root_dir = true
same_component cur_dir cur_dir = true
same_component parent_dir parent_dir = true
same_component (normal s) (normal t) = eq_str s t
same_component _ _ = false

-- `path.starts_with(root)`, by components
unfoldable pub is_under : PathBuf → PathBuf → Bool
unfolding same_component
is_under [] path = true
is_under (r ∷ root) [] = false
is_under (r ∷ root) (c ∷ path) = same_component r c && is_under root path

-- `path.strip_prefix(root)`
unfoldable pub strip_root : PathBuf → PathBuf → Option PathBuf
unfolding same_component
strip_root [] path = some path
strip_root (r ∷ root) [] = none
strip_root (r ∷ root) (c ∷ path) = if same_component r c then strip_root root path else none

-- `Path::parent` and `Path::file_name`
unfoldable pub parent_from : Component → PathBuf → Option PathBuf
parent_from root_dir [] = none
parent_from c [] = some []
parent_from c (d ∷ p) = elim (parent_from d p) [ none ↦ some (c ∷ []) | some q ↦ some (c ∷ q) ]

unfoldable pub parent : PathBuf → Option PathBuf
unfolding parent_from
parent [] = none
parent (c ∷ p) = parent_from c p

unfoldable pub file_name : PathBuf → Option Str
file_name [] = none
file_name (normal s ∷ []) = some s
file_name (root_dir ∷ []) = none
file_name (cur_dir ∷ []) = none
file_name (parent_dir ∷ []) = none
file_name (c ∷ d ∷ p) = file_name (d ∷ p)

-- The text of a path.
unfoldable pub component_text : Component → Str
component_text root_dir = codes "/"
component_text cur_dir = codes "."
component_text parent_dir = codes ".."
component_text (normal s) = s

unfoldable pub to_string : PathBuf → Str
unfolding component_text
to_string [] = []
to_string (root_dir ∷ p) = b'/' ∷ to_string p
to_string (c ∷ []) = component_text c
to_string (c ∷ d ∷ p) = component_text c ++ b'/' ∷ to_string (d ∷ p)

-- The test shared by every `validate_relative`.
abbrev pub escapes : Component → Bool
escapes parent_dir = true
escapes root_dir = true
escapes _ = false

-- `path.strip_prefix(root).unwrap_or(path).to_string_lossy()`
unfoldable pub relative_display : PathBuf → PathBuf → Str
relative_display root path = elim (strip_root root path) [
  | none ↦ to_string path
  | some r ↦ to_string r
]

-- What lies under a root is the root followed by what is left when it is stripped.
pub is_under-append : (root rest : PathBuf) → is_under root (root ++ rest) ≡ true
unfolding is_under same_component
is_under-append [] rest = refl
is_under-append (root_dir ∷ root) rest = is_under-append root rest
is_under-append (cur_dir ∷ root) rest = is_under-append root rest
is_under-append (parent_dir ∷ root) rest = is_under-append root rest
is_under-append (normal s ∷ root) rest = ground (arith, eq_str_self s, is_under-append root rest)

-- Everything under a root stays under it when a longer path is taken.
pub is_under-extend :
    (root path rest : PathBuf) → is_under root path ≡ true → is_under root (path ++ rest) ≡ true
unfolding is_under
is_under-extend [] path rest h = refl
is_under-extend (r ∷ root) [] rest h = absurd (ground arith)
is_under-extend (r ∷ root) (c ∷ path) rest h = ground (arith, is_under-extend root path rest)

-- A relative path without `..` stays under the path that it is joined to.
pub join-is_under :
    (root path : PathBuf) → any escapes path ≡ false → is_under root (join root path) ≡ true
unfolding join is_under
join-is_under root [] h = rw (append-nil root) at (is_under-append root [])
join-is_under root (root_dir ∷ path) h = absurd (ground arith)
join-is_under [] (cur_dir ∷ path) h = refl
join-is_under (r ∷ root) (cur_dir ∷ path) h = is_under-append (r ∷ root) path
join-is_under root (parent_dir ∷ path) h = absurd (ground arith)
join-is_under root (normal s ∷ path) h = is_under-append root (normal s ∷ path)
