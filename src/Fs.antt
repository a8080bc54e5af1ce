-- ===== src/Fs.antt =====
-- src/fs.rs: listing, reading and searching the files of a workspace.
pub mod Resolve
pub mod Read
pub mod Search
pub mod Window
pub mod Matches
pub mod Termination
mod Tests
use tux_bridge.Prelude.{ℕ, Str, Bool, true, false, Option, List, [], ◌∷◌}
use tux_bridge.Error.{Message}
use tux_bridge.Host.{EntryKind}

abbrev pub default_max_results : ℕ
default_max_results = 100

abbrev pub hard_max_results : ℕ
hard_max_results = 1000

abbrev pub default_max_read_bytes : ℕ
default_max_read_bytes = 1048576

abbrev pub hard_max_read_bytes : ℕ
hard_max_read_bytes = 8388608

pub record PathRequest : Type 0 where
  pub workspace : Str
  pub path : Str

pub record ReadRequest : Type 0 where
  pub workspace : Str
  pub path : Str
  pub start_line : Option ℕ
  pub end_line : Option ℕ
  pub max_bytes : Option ℕ

pub record ReadSpec : Type 0 where
  pub path : Str
  pub start_line : Option ℕ
  pub end_line : Option ℕ
  pub max_bytes : Option ℕ

pub record BatchReadRequest : Type 0 where
  pub workspace : Str
  pub files : List ReadSpec

pub record SearchRequest : Type 0 where
  pub workspace : Str
  pub path : Str
  pub query : Str
  pub max_results : Option ℕ

pub record DirectoryEntry : Type 0 where
  pub name : Str
  pub path : Str
  pub kind : EntryKind
  pub size : ℕ

pub record StatResponse : Type 0 where
  pub path : Str
  pub kind : EntryKind
  pub size : ℕ
  pub readonly : Bool

-- `sha256_scope` is always "response_content".
pub record ReadResponse : Type 0 where
  pub path : Str
  pub content : Str
  pub size : ℕ
  pub sha256 : Str
  pub truncated : Bool
  pub start_line : ℕ
  pub end_line : ℕ

pub record BatchReadResult : Type 0 where
  pub path : Str
  pub ok : Bool
  pub result : Option ReadResponse
  pub error : Option Message

pub record SearchMatch : Type 0 where
  pub path : Str
  pub line : ℕ
  pub column : ℕ
  pub preview : Str

pub record SearchResponse : Type 0 where
  pub matches : List SearchMatch
  pub truncated : Bool
