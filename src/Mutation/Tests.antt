-- ===== src/Mutation/Tests.antt =====
-- `write_file` and `patch_file` on the host of Host/Memory.
use tux_bridge.Prelude.{
  ◌≡◌, refl, ◌⊎◌, Str, codes, as_bytes, true, false, none, some, [], ◌∷◌, ◌++◌, texts, arith,
  contains,
}
use tux_bridge.Error.{ApiError, ok, err}
use tux_bridge.Config.{Config, default_config}
use tux_bridge.Paths.{
  is_absolute, is_under, PathBuf, root_dir, normal, components, join, parent, file_name,
  relative_display,
}
use tux_bridge.Host.Memory.{Files, memory, put, look, canonical, new_temp, rename}
use tux_bridge.Host.Memory.Temp.{view, laws}
use tux_bridge.Mutation.Patch.{IsGuardedPatch, patch_file_guarded}
use tux_bridge.Mutation.Replace.{NoneStarts, apply_unique_replace_ok}
use tux_bridge.Mutation.Atomic.{IsAtomic, atomic_write-IsAtomic}
use tux_bridge.Mutation.{
  PatchRequest, resolve_existing_file, resolve_write_target, reject_symlink, read_bounded,
  apply_unique_replace, WriteRequest, replace,
}
use tux_bridge.Mutation.Write.{
  Plan, plan_patch, atomic_write, plan_write, plan_mode, write_file, patch_file, carry_out,
}
use tux_bridge.Mutation.Guards.{IsGuardedWrite, write_file_guarded}

abbrev config : Config
config = record default_config {
  workspaces =
      (
        codes "w",
        record {
          root = codes "/srv";
          capabilities = record {
            fs_read = true;
            fs_write = true;
            commands = false;
            git_read = false;
            git_write = false;
            git_network = false;
          };
        },
      )
      ∷ [];
}

abbrev target : PathBuf
target = root_dir ∷ normal (codes "srv") ∷ normal (codes "a") ∷ []

abbrev disk : Files
disk = put target (some (as_bytes (codes "old"))) (λ p. none)

abbrev write : WriteRequest
write = record {
  workspace = codes "w";
  path = codes "a";
  mode = replace;
  content = codes "new";
  expected_sha256 = some (codes "OLD");
}

write_file_guarded_example :
    ((e : ApiError) × (write_file memory config write disk ≡ (err e, disk)))
    ⊎ ((plan : Plan) × IsGuardedWrite memory config write disk plan
        × (write_file memory config write disk ≡ carry_out memory (ok plan) disk))
write_file_guarded_example = write_file_guarded memory config write disk

-- The request passes every guard, so this is the second case of the theorem.
gate : Unit {0}
unfolding write_file carry_out atomic_write plan_write plan_mode texts put look canonical components
    resolve_write_target parent file_name join rename new_temp relative_display reject_symlink
    read_bounded is_absolute is_under
gate = tt

written : ((write_file memory config write disk).1 target) ≡ some (as_bytes (codes "new"))
unfolding gate
written = refl

replaced :
    apply_unique_replace (codes "hello world") (codes "world") (codes "rust")
    ≡ ok (codes "hello rust")
unfolding apply_unique_replace texts
replaced = refl

apply_unique_replace_ok_example :
    (before : Str) × (after : Str) × (codes "hello world" ≡ before ++ codes "world" ++ after)
    × (codes "hello rust" ≡ before ++ codes "rust" ++ after)
    × NoneStarts (codes "world") before (codes "world" ++ after)
    × (contains (codes "world") after ≡ false)
apply_unique_replace_ok_example =
    apply_unique_replace_ok (codes "hello world") (codes "world") (codes "rust")
      (codes "hello rust") (omega arith) replaced

abbrev plan : Plan
plan = record {
  root = root_dir ∷ normal (codes "srv") ∷ [];
  target = target;
  content = as_bytes (codes "new");
  permissions = some 420;
  no_clobber = false;
}

atomic_write-IsAtomic_example : IsAtomic memory view plan disk (atomic_write memory plan disk)
atomic_write-IsAtomic_example = atomic_write-IsAtomic memory view laws plan disk

abbrev patch : PatchRequest
patch = record {
  workspace = codes "w";
  path = codes "a";
  expected_sha256 = codes "old";
  old = codes "l";
  new = codes "ffere";
}

patched : ((patch_file memory config patch disk).1 target) ≡ some (as_bytes (codes "offered"))
unfolding gate patch_file plan_patch resolve_existing_file apply_unique_replace
patched = refl

patch_file_guarded_example :
    ((e : ApiError) × (patch_file memory config patch disk ≡ (err e, disk)))
    ⊎ ((plan : Plan) × IsGuardedPatch memory config patch disk plan
        × (patch_file memory config patch disk ≡ carry_out memory (ok plan) disk))
patch_file_guarded_example = patch_file_guarded memory config patch disk
