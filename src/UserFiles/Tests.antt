-- ===== src/UserFiles/Tests.antt =====
-- A mount on the host of Host/Memory.
use tux_bridge.Prelude.{
  ◌≡◌, refl, ◌⊎◌, Str, Bytes, codes, as_bytes, true, none, some, [], ◌∷◌, texts,
}
use tux_bridge.Prelude.Dict.{get}
use tux_bridge.Error.{ApiError, ok, err}
use tux_bridge.Config.{Config, UserFilesConfig, default_config}
use tux_bridge.Paths.{
  PathBuf, root_dir, normal, components, is_absolute, is_under, join, parent, file_name,
  relative_display, strip_root, to_string,
}
use tux_bridge.Host.Memory.{Files, memory, put, look, canonical, new_temp, rename, rename_new}
use tux_bridge.Excerpt.{IsExcerpt}
use tux_bridge.Mutation.Write.{Plan}
use tux_bridge.Mutation.Write
use tux_bridge.UserFiles.{WriteRequest, create, PatchRequest, ReadRequest, ReadResponse}
use tux_bridge.UserFiles.Resolve.{
  resolve_write_target, resolve_existing_file, reject_symlink, read_bounded,
}
use tux_bridge.UserFiles.Read.{read_file}
use tux_bridge.UserFiles.Write.{
  write_file, patch_file, plan_write, plan_patch, plan_mode, carry_out, replace_unique,
}
use tux_bridge.UserFiles.Guards.{IsFoundIn}
use tux_bridge.UserFiles.Mutations.{
  IsWritable, IsExpected, IsPatch, mount_write_file_guarded, mount_patch_file_guarded,
}
use tux_bridge.UserFiles.Prefix.{limit_of, read_file-IsExcerpt}

abbrev mount : UserFilesConfig
mount = record { root = codes "/srv"; read = true; write = true }

abbrev config : Config
config = record default_config { user_files = (codes "docs", mount) ∷ [] }

abbrev place : Str → PathBuf
place name = root_dir ∷ normal (codes "srv") ∷ normal name ∷ []

-- "a" holds two characters of two bytes.
abbrev disk : Files
disk = put (place (codes "a")) (some (as_bytes (233 ∷ 233 ∷ []))) (λ p. none)

gate : Unit {0}
unfolding write_file patch_file read_file carry_out plan_write plan_patch plan_mode texts put look
    canonical components resolve_write_target resolve_existing_file reject_symlink read_bounded
    parent file_name join new_temp rename rename_new relative_display strip_root to_string
    is_absolute is_under Write.atomic_write replace_unique
gate = tt

abbrev reading : ReadRequest
reading = record { mount = codes "docs"; path = codes "a"; max_bytes = some 3 }

abbrev reply : ReadResponse
reply = record {
  path = codes "a";
  sha256 = as_bytes (233 ∷ []);
  content = 233 ∷ [];
  size = 4;
  truncated = true;
}

reads_whole_characters : read_file memory config reading disk ≡ ok reply
unfolding gate
reads_whole_characters = refl

read_file-IsExcerpt_example :
    (m : UserFilesConfig) × (root : PathBuf) × (target : PathBuf) × (file : Bytes) × (get
        reading.mount config.user_files
      ≡ some m)
    × (m.read ≡ true)
    × IsFoundIn memory m reading.path disk (root, target)
    × (reply.path ≡ relative_display root target)
    × (memory.read target disk ≡ ok file)
    × IsExcerpt (limit_of reading) file reply.content reply.truncated
    × (reply.sha256 ≡ memory.sha256 (as_bytes reply.content))
read_file-IsExcerpt_example =
    read_file-IsExcerpt memory config reading disk reply reads_whole_characters

abbrev writing : WriteRequest
writing = record {
  mount = codes "docs";
  path = codes "b";
  mode = create;
  content = codes "new";
  expected_sha256 = none;
}

writes :
    (write_file memory config writing disk).1 (place (codes "b")) ≡ some (as_bytes (codes "new"))
unfolding gate
writes = refl

mount_write_file_guarded_example :
    ((e : ApiError) × (write_file memory config writing disk ≡ (err e, disk)))
    ⊎ ((plan : Plan) × IsWritable memory config (codes "docs") disk plan
        × (plan.content ≡ as_bytes (codes "new"))
        × IsExpected memory create none plan.target disk
        × (write_file memory config writing disk ≡ carry_out memory (ok plan) disk))
mount_write_file_guarded_example = mount_write_file_guarded memory config writing disk

abbrev notes : Files
notes = put (place (codes "a")) (some (codes "one two")) (λ p. none)

abbrev patching : PatchRequest
patching = record {
  mount = codes "docs";
  path = codes "a";
  expected_sha256 = codes "ONE TWO";
  old = codes "two";
  new = codes "three";
}

patches : (patch_file memory config patching notes).1 (place (codes "a")) ≡ some (codes "one three")
unfolding gate
patches = refl

mount_patch_file_guarded_example :
    ((e : ApiError) × (patch_file memory config patching notes ≡ (err e, notes)))
    ⊎ ((plan : Plan) × IsWritable memory config (codes "docs") notes plan
        × IsPatch memory patching notes plan
        × (patch_file memory config patching notes ≡ carry_out memory (ok plan) notes))
mount_patch_file_guarded_example = mount_patch_file_guarded memory config patching notes
