-- ===== src/Host.antt =====
-- The operating system as the handlers of files call it. It is not part of the repository: its
-- operations are fields, and theorems name the documented behaviour that they need.
pub mod Memory
use tux_bridge.Prelude.{
  ℕ, ◌≡◌, Str, Bool, true, false, Option, none, some, List, [], ◌∷◌, Bytes, arith,
}
use tux_bridge.Error.{ApiError, Result, ok, err, map_err, not_found, forbidden, internal, shown}
use tux_bridge.Paths.{PathBuf}

-- `std::io::ErrorKind`, as far as it is looked at.
pub data IoKind : Type 0 where
  missing denied already_exists other_kind : IoKind

pub record IoError : Type 0 where
  pub kind : IoKind
  pub message : Str

abbrev pub IoResult : Type 0 → Type 0
IoResult A = Result A IoError

pub data EntryKind : Type 0 where
  file directory symlink other : EntryKind

abbrev pub is_file : EntryKind → Bool
is_file file = true
is_file _ = false

abbrev pub is_dir : EntryKind → Bool
is_dir directory = true
is_dir _ = false

abbrev pub is_symlink : EntryKind → Bool
is_symlink symlink = true
is_symlink _ = false

pub record Metadata : Type 0 where
  pub kind : EntryKind
  pub size : ℕ
  pub readonly : Bool
  pub permissions : ℕ

-- `World` is the state of the file system. `create_temp`, `write_all`, `sync_all`,
-- `set_permissions`, `persist`, `persist_noclobber` and `discard` are the operations of
-- `tempfile::NamedTempFile`; `discard` is its drop.
pub record Host : Type 1 where
  pub World : Type 0
  pub canonicalize : PathBuf → World → IoResult PathBuf
  pub metadata : PathBuf → World → IoResult Metadata
  pub symlink_metadata : PathBuf → World → IoResult Metadata
  pub read : PathBuf → World → IoResult Bytes
  pub read_dir : PathBuf → World → IoResult (List (IoResult PathBuf))
  pub create_temp : PathBuf → World → IoResult PathBuf × World
  pub write_all : PathBuf → Bytes → World → IoResult (Unit {0}) × World
  pub sync_all : PathBuf → World → IoResult (Unit {0}) × World
  pub set_permissions : PathBuf → ℕ → World → IoResult (Unit {0}) × World
  pub persist : PathBuf → PathBuf → World → IoResult (Unit {0}) × World
  pub persist_noclobber : PathBuf → PathBuf → World → IoResult (Unit {0}) × World
  pub discard : PathBuf → World → World
  pub sha256 : Bytes → Str

-- `map_io`, the same in every file that has one.
unfoldable pub map_io : IoError → ApiError
map_io e = elim e.kind [
  | missing ↦ not_found (shown e.message ∷ [])
  | denied ↦ forbidden (shown e.message ∷ [])
  | already_exists ↦ internal (shown e.message ∷ [])
  | other_kind ↦ internal (shown e.message ∷ [])
]

pub map_io_ok : {A : Type 0} (m : IoResult A) (a : A) → map_err map_io m ≡ ok a → m ≡ ok a
map_io_ok (ok b) a h = ground arith
map_io_ok (err e) a h = cc
