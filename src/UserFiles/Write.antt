-- ===== src/UserFiles/Write.antt =====
-- `write_file` and `patch_file` of src/user_files.rs: a plan made by reading only, then the atomic
-- write, whose code is the same, word for word, as that of src/mutation.rs.
use tux_bridge.Prelude.{
  ℕ, zero, suc, ◌+◌, Str, as_bytes, from_utf8, true, false, not, none, some, [], ◌∷◌, is_empty,
  length,
}
use tux_bridge.Error.{
  ApiResult, ok, err, ◌>>=◌, ◌>>◌, refuse_if, ok_or, map_err, is_ok, says, text, number,
  bad_request, conflict, not_found, unsupported,
}
use tux_bridge.Config.{Config}
use tux_bridge.Paths.{PathBuf, relative_display}
use tux_bridge.Host.{Host, map_io}
use tux_bridge.Mutation.{count_matches, replace_first}
use tux_bridge.Mutation.Write.{Plan}
use tux_bridge.Mutation.Write
use tux_bridge.UserFiles.{WriteMode, create, replace, WriteRequest, PatchRequest, MutationResponse}
use tux_bridge.UserFiles.Resolve.{
  require_mount, ensure_size, resolve_existing_file, resolve_write_target, reject_symlink,
  read_bounded, verify_hash,
}

-- `count != 1`
unfoldable pub judge_count : ℕ → Str → ApiResult Str
judge_count (suc zero) updated = ok updated
judge_count zero updated = err (
    conflict (
      text "old text matched "
      ∷ number 0
      ∷ text " times; targeted patch requires exactly one match"
      ∷ []))
judge_count (suc (suc n)) updated = err (
    conflict (
      text "old text matched "
      ∷ number (n + 2)
      ∷ text " times; targeted patch requires exactly one match"
      ∷ []))

unfoldable pub replace_unique : Str → Str → Str → ApiResult Str
unfolding judge_count count_matches replace_first
replace_unique s old new = judge_count (count_matches (length s) old s) (replace_first old new s)

module _ (host : Host) where
  unfoldable pub atomic_write : Plan → host.World → ApiResult (Unit {0}) × host.World
  atomic_write plan w = Write.atomic_write host plan w

  unfoldable pub plan_mode :
      PathBuf → PathBuf → WriteRequest → host.World → WriteMode → ApiResult Plan
  unfolding reject_symlink read_bounded verify_hash
  plan_mode root target request w create = do
    refuse_if (is_ok (host.metadata target w)) (conflict (says "target already exists"))
    ok (record {
      root = root;
      target = target;
      content = as_bytes request.content;
      permissions = none;
      no_clobber = true;
    })
  plan_mode root target request w replace = do
    refuse_if (not (is_ok (host.metadata target w))) (not_found (says "target does not exist"))
    reject_symlink host target w
    current ← read_bounded host target w
    expected ←
        ok_or request.expected_sha256
          (bad_request (says "expected_sha256 is required for replace mode"))
    verify_hash host expected current
    metadata ← map_err map_io (host.metadata target w)
    ok (record {
      root = root;
      target = target;
      content = as_bytes request.content;
      permissions = some metadata.permissions;
      no_clobber = false;
    })

  unfoldable pub plan_write : Config → WriteRequest → host.World → ApiResult Plan
  unfolding require_mount ensure_size resolve_write_target plan_mode
  plan_write config request w = do
    mount ← require_mount config request.mount true
    ensure_size (length (as_bytes request.content))
    (root, target) ← resolve_write_target host mount request.path w
    plan_mode root target request w request.mode

  unfoldable pub plan_patch : Config → PatchRequest → host.World → ApiResult Plan
  unfolding require_mount ensure_size resolve_existing_file reject_symlink read_bounded verify_hash
      replace_unique
  plan_patch config request w = do
    refuse_if (is_empty request.old) (bad_request (says "old text must not be empty"))
    mount ← require_mount config request.mount true
    (root, target) ← resolve_existing_file host mount request.path w
    reject_symlink host target w
    current ← read_bounded host target w
    verify_hash host request.expected_sha256 current
    original ← ok_or (from_utf8 current) (unsupported (says "file is not valid UTF-8 text"))
    updated ← replace_unique original request.old request.new
    ensure_size (length (as_bytes updated))
    metadata ← map_err map_io (host.metadata target w)
    ok (record {
      root = root;
      target = target;
      content = as_bytes updated;
      permissions = some metadata.permissions;
      no_clobber = false;
    })

  unfoldable pub mutation_response : Plan → MutationResponse
  mutation_response plan = record {
    path = relative_display plan.root plan.target;
    size = length plan.content;
    sha256 = host.sha256 plan.content;
  }

  unfoldable pub carry_out : ApiResult Plan → host.World → ApiResult MutationResponse × host.World
  unfolding atomic_write mutation_response
  carry_out (err e) w = (err e, w)
  carry_out (ok plan) w =
      let (done, w') = atomic_write plan w in (done >> ok (mutation_response plan), w')

  unfoldable pub write_file :
      Config → WriteRequest → host.World → ApiResult MutationResponse × host.World
  unfolding plan_write carry_out
  write_file config request w = carry_out (plan_write config request w) w

  unfoldable pub patch_file :
      Config → PatchRequest → host.World → ApiResult MutationResponse × host.World
  unfolding plan_patch carry_out
  patch_file config request w = carry_out (plan_patch config request w) w
