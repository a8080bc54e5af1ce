-- ===== src/UserFiles.antt =====
-- src/user_files.rs: directories of the user's own files, mounted under a name, each with its rights.
pub mod Resolve
pub mod Read
pub mod Write
pub mod Guards
pub mod Mutations
pub mod Prefix
mod Tests
use tux_bridge.Prelude.{ℕ, String, Str, Bool, true, false, Option}

abbrev pub max_file_bytes : ℕ
max_file_bytes = 8388608

pub record MountSummary : Type 0 where
  pub name : Str
  pub root : Str
  pub exists : Bool
  pub read : Bool
  pub write : Bool

pub record PathRequest : Type 0 where
  pub mount : Str
  pub path : Str

pub record ReadRequest : Type 0 where
  pub mount : Str
  pub path : Str
  pub max_bytes : Option ℕ

pub data WriteMode : Type 0 where
  create replace : WriteMode

pub record WriteRequest : Type 0 where
  pub mount : Str
  pub path : Str
  pub mode : WriteMode
  pub content : Str
  pub expected_sha256 : Option Str

pub record PatchRequest : Type 0 where
  pub mount : Str
  pub path : Str
  pub expected_sha256 : Str
  pub old : Str
  pub new : Str

pub record Entry : Type 0 where
  pub name : Str
  pub path : Str
  pub kind : String
  pub size : ℕ

pub record StatResponse : Type 0 where
  pub path : Str
  pub absolute : Str
  pub kind : String
  pub size : ℕ
  pub readonly : Bool

pub record ReadResponse : Type 0 where
  pub path : Str
  pub content : Str
  pub size : ℕ
  pub sha256 : Str
  pub truncated : Bool

pub record MutationResponse : Type 0 where
  pub path : Str
  pub size : ℕ
  pub sha256 : Str
