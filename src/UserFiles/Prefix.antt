-- ===== src/UserFiles/Prefix.antt =====
-- What `read_file` of src/user_files.rs returns of a file.
use tux_bridge.Prelude.{ℕ, ◌≡◌, refl, subst, Bytes, as_bytes, true, false, some, clamp, or_else}
use tux_bridge.Error.{ok, chain-Ran, ran, ok_inj, map_err}
use tux_bridge.Prelude.Dict.{get}
use tux_bridge.Config.{Config, UserFilesConfig}
use tux_bridge.Paths.{PathBuf, relative_display}
use tux_bridge.Host.{Host, map_io, map_io_ok}
use tux_bridge.UserFiles.{max_file_bytes, ReadRequest, ReadResponse}
use tux_bridge.UserFiles.Resolve.{require_mount, resolve_existing_file}
use tux_bridge.UserFiles.Guards.{require_mount_ok, IsFoundIn, resolve_existing_file-IsFoundIn}
use tux_bridge.Excerpt.{IsExcerpt, excerpt, excerpt-IsExcerpt}
use tux_bridge.UserFiles.Read.{read_file}

-- The limit that a request leads to.
abbrev pub limit_of : ReadRequest → ℕ
limit_of request = clamp (or_else request.max_bytes 1048576) 1 max_file_bytes

module _ (host : Host) where
  -- A file is read only in a mount that grants reads. What is read is the path that the host makes
  -- canonical of the mount's canonical root joined with the requested path, which lies under that
  -- root and is the path of the answer, relative to it; the answer's text is an excerpt of what the
  -- host has there, and its hash is that of the excerpt.
  pub read_file-IsExcerpt :
      (config : Config) (request : ReadRequest) (w : host.World) (response : ReadResponse)
      → read_file host config request w ≡ ok response
      → (mount : UserFilesConfig) × (root : PathBuf) × (target : PathBuf) × (file : Bytes) × (get
            request.mount config.user_files
          ≡ some mount)
        × (mount.read ≡ true)
        × IsFoundIn host mount request.path w (root, target)
        × (response.path ≡ relative_display root target)
        × (host.read target w ≡ ok file)
        × IsExcerpt (limit_of request) file response.content response.truncated
        × (response.sha256 ≡ host.sha256 (as_bytes response.content))
  unfolding read_file
  read_file-IsExcerpt config request w response h =
      elim (chain-Ran (require_mount config request.mount false) _ h) [
        | ran mount e1 h1 ↦
            elim (chain-Ran (resolve_existing_file host mount request.path w) _ h1) [
              | ran (root, target) e2 h2 ↦
                  elim (chain-Ran (map_err map_io (host.metadata target w)) _ h2) [
                    | ran m e3 h3 ↦ elim (chain-Ran (map_err map_io (host.read target w)) _ h3) [
                      | ran file e4 h4 ↦ elim (chain-Ran (excerpt (limit_of request) file) _ h4) [
                        | ran content e5 h5 ↦
                            let (found, grants) =
                              require_mount_ok config request.mount false mount e1 in
                            subst
                              (λ (r : ReadResponse).
                                (mount : UserFilesConfig) × (root : PathBuf) × (target : PathBuf)
                                × (file : Bytes) × (get request.mount config.user_files
                                    ≡ some mount)
                                × (mount.read ≡ true)
                                × IsFoundIn host mount request.path w (root, target)
                                × (r.path ≡ relative_display root target)
                                × (host.read target w ≡ ok file)
                                × IsExcerpt (limit_of request) file r.content r.truncated
                                × (r.sha256 ≡ host.sha256 (as_bytes r.content)))
                              (ok_inj refl h5)
                              (
                                mount,
                                root,
                                target,
                                file,
                                found,
                                grants.1 refl,
                                resolve_existing_file-IsFoundIn host mount request.path w
                                    (root, target) e2,
                                refl,
                                map_io_ok _ file e4,
                                excerpt-IsExcerpt (limit_of request) file content e5,
                                refl,
                              )
                      ]
                    ]
                  ]
            ]
      ]
