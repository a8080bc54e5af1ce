-- ===== src/Mutation.antt =====
-- src/mutation.rs: reading a file's hash, writing a file, and patching it, guarded by that hash.
-- A handler first decides by reading (`plan_write`, `plan_patch`) and then writes (`atomic_write`).
pub mod Write
pub mod Guards
pub mod Replace
pub mod Atomic
pub mod Patch
mod Tests
use tux_bridge.Prelude.{
  ℕ, ◌+◌, zero, suc, Str, codes, Bytes, as_bytes, from_utf8, Bool, true, false, not, Option, none,
  some, List, [], ◌∷◌, ◌++◌, any, is_empty, length, len, ltb, if◌then◌else◌, strip_prefix,
  eq_ignore_ascii_case,
}
use tux_bridge.Prelude.Dict.{get}
use tux_bridge.Error.{
  ApiError, ApiResult, Result, ok, err, ◌>>=◌, ◌>>◌, refuse_if, ok_or, map_err, is_ok, says, text,
  quoted, shown, number, bad_request, conflict, forbidden, not_found, unsupported, internal,
}
use tux_bridge.Config.{Config, WorkspaceConfig}
use tux_bridge.Paths.{
  PathBuf, components, is_absolute, escapes, join, is_under, parent, file_name, normal,
  relative_display,
}
use tux_bridge.Host.{Host, IoError, IoResult, missing, already_exists, is_file, is_symlink, map_io}

abbrev pub max_mutation_bytes : ℕ
max_mutation_bytes = 8388608

pub record HashRequest : Type 0 where
  pub workspace : Str
  pub path : Str

pub data WriteMode : Type 0 where
  create replace : WriteMode

pub record WriteRequest : Type 0 where
  pub workspace : Str
  pub path : Str
  pub mode : WriteMode
  pub content : Str
  pub expected_sha256 : Option Str

pub record PatchRequest : Type 0 where
  pub workspace : Str
  pub path : Str
  pub expected_sha256 : Str
  pub old : Str
  pub new : Str

pub record HashResponse : Type 0 where
  pub path : Str
  pub size : ℕ
  pub sha256 : Str

pub record MutationResponse : Type 0 where
  pub path : Str
  pub size : ℕ
  pub sha256 : Str

unfoldable pub workspace_with_capability : Config → Str → Bool → ApiResult WorkspaceConfig
workspace_with_capability config name write = do
  workspace ←
      ok_or (get name config.workspaces)
        (not_found (text "workspace " ∷ quoted name ∷ text " is not configured" ∷ []))
  refuse_if
      (not (if write then workspace.capabilities.fs_write else workspace.capabilities.fs_read))
      (forbidden (
        text "workspace "
        ∷ quoted name
        ∷ text " does not allow filesystem "
        ∷ text (if write then "writes" else "reads")
        ∷ []))
  ok workspace

unfoldable pub validate_relative_file_path : Str → ApiResult PathBuf
validate_relative_file_path requested = do
  let path = components requested
  refuse_if (is_empty requested) (bad_request (says "path must not be empty"))
  refuse_if (is_absolute path) (bad_request (says "path must be relative to the workspace"))
  refuse_if (any escapes path)
      (bad_request (says "path traversal outside the workspace is not allowed"))
  ok path

unfoldable pub ensure_within : PathBuf → PathBuf → ApiResult (Unit {0})
ensure_within root target =
    refuse_if (not (is_under root target)) (forbidden (says "resolved path escapes workspace root"))

unfoldable pub ensure_mutation_size : ℕ → ApiResult (Unit {0})
ensure_mutation_size size = refuse_if (ltb max_mutation_bytes size) (
    bad_request
      (text "content exceeds mutation limit of " ∷ number max_mutation_bytes ∷ text " bytes" ∷ []))

-- `match_indices(old).count()`: matches from the left that do not overlap. Each match of a text that
-- is not empty shortens what remains, so the length of the text is enough fuel.
unfoldable pub count_matches : ℕ → Str → Str → ℕ
count_matches zero old s = 0
count_matches (suc n) old [] = 0
count_matches (suc n) old (c ∷ s) = elim (strip_prefix old (c ∷ s)) [
  | none ↦ count_matches n old s
  | some rest ↦ suc (count_matches n old rest)
]

-- `replacen(old, new, 1)`
unfoldable pub replace_first : Str → Str → Str → Str
replace_first old new [] = []
replace_first old new (c ∷ s) = elim (strip_prefix old (c ∷ s)) [
  | none ↦ c ∷ replace_first old new s
  | some rest ↦ new ++ rest
]

unfoldable pub judge_matches : ℕ → Str → ApiResult Str
judge_matches zero updated = err (conflict (says "old text was not found"))
judge_matches (suc zero) updated = ok updated
judge_matches (suc (suc n)) updated = err (
    conflict (
      text "old text matched "
      ∷ number (n + 2)
      ∷ text " times; targeted patch requires exactly one match"
      ∷ []))

-- The handler asks only for an `old` that is not empty.
unfoldable pub apply_unique_replace : Str → Str → Str → ApiResult Str
unfolding count_matches replace_first judge_matches
apply_unique_replace s old new =
    judge_matches (count_matches (length s) old s) (replace_first old new s)

module _ (host : Host) where
  unfoldable pub canonical_root : WorkspaceConfig → host.World → ApiResult PathBuf
  canonical_root workspace w =
      map_err (λ e. internal (text "failed to resolve workspace root: " ∷ shown e.message ∷ []))
        (host.canonicalize (components workspace.root) w)

  unfoldable pub reject_symlink : PathBuf → host.World → ApiResult (Unit {0})
  reject_symlink path w = elim (host.symlink_metadata path w) [
    | ok m ↦
        refuse_if (is_symlink m.kind)
          (forbidden (says "filesystem mutation through symlinks is not allowed"))
    | err e ↦ elim e.kind [ missing ↦ ok tt | _ ↦ err (map_io e) ]
  ]

  unfoldable pub read_bounded : PathBuf → host.World → ApiResult Bytes
  read_bounded path w = do
    metadata ← map_err map_io (host.metadata path w)
    refuse_if (ltb max_mutation_bytes metadata.size) (
        bad_request
          (text "file exceeds mutation limit of " ∷ number max_mutation_bytes ∷ text " bytes" ∷ []))
    map_err map_io (host.read path w)

  unfoldable pub verify_expected_hash : Str → Bytes → ApiResult (Unit {0})
  verify_expected_hash expected current =
      refuse_if (not (eq_ignore_ascii_case expected (host.sha256 current))) (
        conflict (
          text "file changed: expected sha256 "
          ∷ shown expected
          ∷ text ", current sha256 "
          ∷ shown (host.sha256 current)
          ∷ []))

  unfoldable pub resolve_existing_file :
      WorkspaceConfig → Str → host.World → ApiResult (PathBuf × PathBuf)
  unfolding canonical_root validate_relative_file_path ensure_within reject_symlink
  resolve_existing_file workspace requested w = do
    relative ← validate_relative_file_path requested
    root ← canonical_root workspace w
    reject_symlink (join root relative) w
    target ← map_err map_io (host.canonicalize (join root relative) w)
    ensure_within root target
    metadata ← map_err map_io (host.metadata target w)
    refuse_if (not (is_file metadata.kind)) (bad_request (says "path is not a regular file"))
    ok (root, target)

  -- `Path::exists`
  abbrev pub exists : PathBuf → host.World → Bool
  exists path w = is_ok (host.metadata path w)

  -- The target inside the canonical directory that is to hold it.
  unfoldable pub settle_target : PathBuf → PathBuf → host.World → ApiResult (PathBuf × PathBuf)
  unfolding reject_symlink ensure_within
  settle_target root resolved w =
      if exists resolved w
      then (do
        reject_symlink resolved w
        canonical_target ← map_err map_io (host.canonicalize resolved w)
        ensure_within root canonical_target
        ok (root, canonical_target))
      else ok (root, resolved)

  unfoldable pub resolve_write_target :
      WorkspaceConfig → Str → host.World → ApiResult (PathBuf × PathBuf)
  unfolding canonical_root validate_relative_file_path ensure_within settle_target
  resolve_write_target workspace requested w = do
    relative ← validate_relative_file_path requested
    root ← canonical_root workspace w
    dir ←
        ok_or (parent (join root relative))
          (bad_request (says "target must have a parent directory"))
    canonical_parent ← map_err map_io (host.canonicalize dir w)
    ensure_within root canonical_parent
    name ← ok_or (file_name (join root relative)) (bad_request (says "path must identify a file"))
    settle_target root (join canonical_parent (normal name ∷ [])) w

  unfoldable pub hash_file : Config → HashRequest → host.World → ApiResult HashResponse
  unfolding workspace_with_capability resolve_existing_file read_bounded
  hash_file config request w = do
    workspace ← workspace_with_capability config request.workspace false
    (root, target) ← resolve_existing_file workspace request.path w
    bytes ← read_bounded target w
    ok (record {
      path = relative_display root target;
      size = length bytes;
      sha256 = host.sha256 bytes;
    })
