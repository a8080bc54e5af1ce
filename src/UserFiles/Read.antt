-- ===== src/UserFiles/Read.antt =====
-- The reading handlers of src/user_files.rs.
use tux_bridge.Prelude.{
  ◌+◌, decode, as_bytes, Bool, false, not, List, [], ◌∷◌, length, take, ltb, clamp, or_else,
  if◌then◌else◌,
}
use tux_bridge.Prelude.Dict.{Dict}
use tux_bridge.Prelude.Sort.{sort_by}
use tux_bridge.Error.{ApiResult, ok, err, ◌>>=◌, ◌>>◌, refuse_if, map_err, says, bad_request}
use tux_bridge.Config.{Config, UserFilesConfig}
use tux_bridge.Paths.{PathBuf, components, file_name, relative_display, to_string}
use tux_bridge.Host.{Host, IoResult, is_dir, map_io}
use tux_bridge.Excerpt.{text_up_to}
use tux_bridge.UserFiles.{
  max_file_bytes, MountSummary, PathRequest, ReadRequest, Entry, StatResponse, ReadResponse,
  MutationResponse,
}
use tux_bridge.UserFiles.Resolve.{
  require_mount, kind, resolve_existing, resolve_existing_file, read_bounded,
}

module _ (host : Host) where
  -- `Path::is_dir`
  abbrev pub exists_dir : PathBuf → host.World → Bool
  exists_dir path w = elim (host.metadata path w) [ ok m ↦ is_dir m.kind | err e ↦ false ]

  unfoldable pub list_mounts : Dict UserFilesConfig → host.World → List MountSummary
  list_mounts [] w = []
  list_mounts ((name, mount) ∷ rest) w =
      record {
        name = name;
        root = mount.root;
        exists = exists_dir (components mount.root) w;
        read = mount.read;
        write = mount.write;
      }
      ∷ list_mounts rest w

  -- The loop over `read_dir`.
  unfoldable pub entries : PathBuf → List (IoResult PathBuf) → host.World → ApiResult (List Entry)
  unfolding kind
  entries root [] w = ok []
  entries root (found ∷ rest) w =
      let others = entries root rest w in
      map_err map_io found >>= λ path. map_err map_io (host.symlink_metadata path w) >>= λ metadata.
      others >>= λ listed. ok (
        record {
          name = or_else (file_name path) [];
          path = relative_display root path;
          kind = kind metadata.kind;
          size = metadata.size;
        }
        ∷ listed)

  unfoldable pub list_directory : Config → PathRequest → host.World → ApiResult (List Entry)
  unfolding require_mount resolve_existing entries
  list_directory config request w = do
    mount ← require_mount config request.mount false
    (root, target) ← resolve_existing host mount request.path w
    metadata ← map_err map_io (host.metadata target w)
    refuse_if (not (is_dir metadata.kind)) (bad_request (says "path is not a directory"))
    found ← map_err map_io (host.read_dir target w)
    listed ← entries root found w
    ok (sort_by (λ entry. entry.name) listed)

  unfoldable pub stat_path : Config → PathRequest → host.World → ApiResult StatResponse
  unfolding require_mount resolve_existing kind
  stat_path config request w = do
    mount ← require_mount config request.mount false
    (root, target) ← resolve_existing host mount request.path w
    metadata ← map_err map_io (host.symlink_metadata target w)
    ok (record {
      path = relative_display root target;
      absolute = to_string target;
      kind = kind metadata.kind;
      size = metadata.size;
      readonly = metadata.readonly;
    })

  unfoldable pub read_file : Config → ReadRequest → host.World → ApiResult ReadResponse
  unfolding require_mount resolve_existing_file text_up_to
  read_file config request w = do
    mount ← require_mount config request.mount false
    (root, target) ← resolve_existing_file host mount request.path w
    metadata ← map_err map_io (host.metadata target w)
    let max_bytes = clamp (or_else request.max_bytes 1048576) 1 max_file_bytes
    contents ← map_err map_io (host.read target w)
    let bytes = take (max_bytes + 1) contents
    let truncated = ltb max_bytes (length bytes)
    content ← text_up_to truncated (decode (if truncated then take max_bytes bytes else bytes))
    ok (record {
      path = relative_display root target;
      sha256 = host.sha256 (as_bytes content);
      content = content;
      size = metadata.size;
      truncated = truncated;
    })

  unfoldable pub hash_file : Config → PathRequest → host.World → ApiResult MutationResponse
  unfolding require_mount resolve_existing_file read_bounded
  hash_file config request w = do
    mount ← require_mount config request.mount false
    (root, target) ← resolve_existing_file host mount request.path w
    bytes ← read_bounded host target w
    ok (record {
      path = relative_display root target;
      size = length bytes;
      sha256 = host.sha256 bytes;
    })
