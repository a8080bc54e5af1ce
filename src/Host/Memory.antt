-- ===== src/Host/Memory.antt =====
-- A small host for tests: files by their path, one directory, no links. Its "hash" is the content.
pub mod Laws
pub mod Temp
use tux_bridge.Prelude.{
  ℕ, ◌≡◌, ◌≢◌, ◌⊎◌, inl, inr, refl, Str, codes, Bytes, Bool, true, false, ◌&&◌, Option, none, some,
  List, [], ◌∷◌, ◌++◌, length, if◌then◌else◌, eq_str, eq_str_iff, arith,
}
use tux_bridge.Error.{Result, ok, err}
use tux_bridge.Paths.{
  Component, root_dir, cur_dir, parent_dir, normal, PathBuf, same_component, components,
}
use tux_bridge.Host.{Host, IoError, IoResult, missing, already_exists, Metadata, file, directory}

unfoldable pub same_path : PathBuf → PathBuf → Bool
unfolding same_component
same_path [] [] = true
same_path [] (d ∷ q) = false
same_path (c ∷ p) [] = false
same_path (c ∷ p) (d ∷ q) = same_component c d && same_path p q

abbrev pub Files : Type 0
Files = PathBuf → Option Bytes

abbrev no_file : IoError
no_file = record { kind = missing; message = codes "No such file" }

abbrev file_exists : IoError
file_exists = record { kind = already_exists; message = codes "File exists" }

abbrev pub the_directory : PathBuf
the_directory = root_dir ∷ normal (codes "srv") ∷ []

unfoldable pub look : PathBuf → Files → IoResult Metadata
unfolding same_path
look path w =
    if same_path path the_directory
    then ok (record { kind = directory; size = 0; readonly = false; permissions = 493 })
    else elim (w path) [
      | none ↦ err no_file
      | some bytes ↦
          ok (record { kind = file; size = length bytes; readonly = false; permissions = 420 })
    ]

unfoldable pub canonical : PathBuf → Files → IoResult PathBuf
unfolding look
canonical path w = elim (look path w) [ ok m ↦ ok path | err e ↦ err e ]

abbrev pub contents : PathBuf → Files → IoResult Bytes
contents path w = elim (w path) [ none ↦ err no_file | some bytes ↦ ok bytes ]

unfoldable pub put : PathBuf → Option Bytes → Files → Files
unfolding same_path
put path entry w p = if same_path path p then entry else w p

unfoldable pub new_temp : PathBuf → Files → IoResult PathBuf × Files
unfolding put
new_temp dir w =
    let temp : PathBuf = dir ++ normal (codes ".tmp") ∷ [] in
    elim (w temp) [ none ↦ (ok temp, put temp (some []) w) | some bytes ↦ (err file_exists, w) ]

unfoldable pub rename : PathBuf → PathBuf → Files → IoResult (Unit {0}) × Files
unfolding put
rename temp target w = (ok tt, put target (w temp) (put temp none w))

unfoldable pub rename_new : PathBuf → PathBuf → Files → IoResult (Unit {0}) × Files
unfolding rename
rename_new temp target w = elim (w target) [
  | none ↦ rename temp target w
  | some bytes ↦ (err file_exists, w)
]

abbrev pub memory : Host
memory = record {
  World = Files;
  canonicalize = canonical;
  metadata = look;
  symlink_metadata = look;
  read = contents;
  read_dir = λ path w. ok [];
  create_temp = new_temp;
  write_all = λ temp bytes w. (ok tt, put temp (some bytes) w);
  sync_all = λ temp w. (ok tt, w);
  set_permissions = λ temp mode w. (ok tt, w);
  persist = rename;
  persist_noclobber = rename_new;
  discard = λ temp w. put temp none w;
  sha256 = λ bytes. bytes;
}
