-- ===== src/Mutation/Write.antt =====
-- src/mutation.rs: `write_file` and `patch_file` as a plan, made by reading only, that
-- `atomic_write` carries out.
use tux_bridge.Prelude.{
  ℕ, Bytes, as_bytes, from_utf8, Bool, true, false, not, Option, none, some, is_empty, length,
}
use tux_bridge.Error.{
  ApiError, ApiResult, ok, err, ◌>>=◌, ◌>>◌, refuse_if, ok_or, map_err, says, bad_request, conflict,
  not_found, unsupported,
}
use tux_bridge.Config.{Config}
use tux_bridge.Paths.{PathBuf, parent, relative_display}
use tux_bridge.Host.{Host, IoError, IoResult, already_exists, map_io}
use tux_bridge.Mutation.{
  WriteMode, create, replace, WriteRequest, PatchRequest, MutationResponse,
  workspace_with_capability, ensure_mutation_size, resolve_write_target, resolve_existing_file,
  reject_symlink, read_bounded, verify_expected_hash, apply_unique_replace, exists,
}

-- The arguments of `atomic_write`, and the root of the workspace.
pub record Plan : Type 0 where
  pub root : PathBuf
  pub target : PathBuf
  pub content : Bytes
  pub permissions : Option ℕ
  pub no_clobber : Bool

-- The failure of `persist_noclobber`, and of `persist`.
unfoldable pub persist_error : Bool → IoError → ApiError
unfolding map_io
persist_error false e = map_io e
persist_error true e = elim e.kind [
  | already_exists ↦ conflict (says "target already exists")
  | _ ↦ map_io e
]

module _ (host : Host) where
  -- The two arms of `match request.mode`, up to the write.
  unfoldable pub plan_mode :
      PathBuf → PathBuf → WriteRequest → host.World → WriteMode → ApiResult Plan
  unfolding reject_symlink read_bounded verify_expected_hash
  plan_mode root target request w create = do
    refuse_if (exists host target w) (conflict (says "target already exists"))
    ok (record {
      root = root;
      target = target;
      content = as_bytes request.content;
      permissions = none;
      no_clobber = true;
    })
  plan_mode root target request w replace = do
    refuse_if (not (exists host target w)) (not_found (says "target does not exist"))
    reject_symlink host target w
    current ← read_bounded host target w
    expected ←
        ok_or request.expected_sha256
          (bad_request (says "expected_sha256 is required for replace mode"))
    verify_expected_hash host expected current
    metadata ← map_err map_io (host.metadata target w)
    ok (record {
      root = root;
      target = target;
      content = as_bytes request.content;
      permissions = some metadata.permissions;
      no_clobber = false;
    })

  unfoldable pub plan_write : Config → WriteRequest → host.World → ApiResult Plan
  unfolding workspace_with_capability ensure_mutation_size resolve_write_target plan_mode
  plan_write config request w = do
    workspace ← workspace_with_capability config request.workspace true
    ensure_mutation_size (length (as_bytes request.content))
    (root, target) ← resolve_write_target host workspace request.path w
    plan_mode root target request w request.mode

  unfoldable pub plan_patch : Config → PatchRequest → host.World → ApiResult Plan
  unfolding workspace_with_capability ensure_mutation_size resolve_existing_file reject_symlink
      read_bounded verify_expected_hash apply_unique_replace
  plan_patch config request w = do
    refuse_if (is_empty request.old) (bad_request (says "old text must not be empty"))
    workspace ← workspace_with_capability config request.workspace true
    (root, target) ← resolve_existing_file host workspace request.path w
    reject_symlink host target w
    current ← read_bounded host target w
    verify_expected_hash host request.expected_sha256 current
    text ← ok_or (from_utf8 current) (unsupported (says "file is not valid UTF-8 text"))
    updated ← apply_unique_replace text request.old request.new
    ensure_mutation_size (length (as_bytes updated))
    metadata ← map_err map_io (host.metadata target w)
    ok (record {
      root = root;
      target = target;
      content = as_bytes updated;
      permissions = some metadata.permissions;
      no_clobber = false;
    })

  -- A step on the temporary file: when it fails, the file is dropped and the error returned.
  abbrev pub or_drop :
      PathBuf
      → (IoError → ApiError)
      → IoResult (Unit {0}) × host.World
      → (host.World → ApiResult (Unit {0}) × host.World)
      → ApiResult (Unit {0}) × host.World
  or_drop temp report (ok done, w) next = next w
  or_drop temp report (err e, w) next = (err (report e), host.discard temp w)

  unfoldable pub restore_permissions :
      PathBuf → Option ℕ → host.World → IoResult (Unit {0}) × host.World
  restore_permissions temp none w = (ok tt, w)
  restore_permissions temp (some mode) w = host.set_permissions temp mode w

  -- `persist_noclobber` or `persist`
  unfoldable pub install : PathBuf → PathBuf → Bool → host.World → IoResult (Unit {0}) × host.World
  install temp target true w = host.persist_noclobber temp target w
  install temp target false w = host.persist temp target w

  -- `atomic_write` once the temporary file is there.
  unfoldable pub fill_and_persist : PathBuf → Plan → host.World → ApiResult (Unit {0}) × host.World
  unfolding restore_permissions install
  fill_and_persist temp plan w = or_drop temp map_io (host.write_all temp plan.content w) (λ w.
      or_drop temp map_io (host.sync_all temp w) (λ w.
        or_drop temp map_io (restore_permissions temp plan.permissions w) (λ w.
          or_drop temp (persist_error plan.no_clobber) (install temp plan.target plan.no_clobber w)
            (λ w. (ok tt, w)))))

  unfoldable pub begin_temp :
      Plan → IoResult PathBuf × host.World → ApiResult (Unit {0}) × host.World
  unfolding fill_and_persist
  begin_temp plan (err e, w) = (err (map_io e), w)
  begin_temp plan (ok temp, w) = fill_and_persist temp plan w

  unfoldable pub atomic_write : Plan → host.World → ApiResult (Unit {0}) × host.World
  unfolding begin_temp
  atomic_write plan w = elim (parent plan.target) [
    | none ↦ (err (bad_request (says "target must have a parent directory")), w)
    | some dir ↦ begin_temp plan (host.create_temp dir w)
  ]

  unfoldable pub mutation_response : Plan → MutationResponse
  mutation_response plan = record {
    path = relative_display plan.root plan.target;
    size = length plan.content;
    sha256 = host.sha256 plan.content;
  }

  unfoldable pub carry_out : ApiResult Plan → host.World → ApiResult MutationResponse × host.World
  unfolding atomic_write mutation_response
  carry_out (err e) w = (err e, w)
  carry_out (ok plan) w =
      let (done, w') = atomic_write plan w in (done >> ok (mutation_response plan), w')

  unfoldable pub write_file :
      Config → WriteRequest → host.World → ApiResult MutationResponse × host.World
  unfolding plan_write carry_out
  write_file config request w = carry_out (plan_write config request w) w

  unfoldable pub patch_file :
      Config → PatchRequest → host.World → ApiResult MutationResponse × host.World
  unfolding plan_patch carry_out
  patch_file config request w = carry_out (plan_patch config request w) w
