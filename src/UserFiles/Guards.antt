-- ===== src/UserFiles/Guards.antt =====
-- What holds of every path that src/user_files.rs touches.
use tux_bridge.Prelude.{
  ◌≡◌, refl, subst, inl, inr, Str, Bytes, Bool, true, false, not, some, ◌++◌, [], ◌∷◌, arith,
  Option-cases, Bool-cases, ltb, eq_ignore_ascii_case,
}
use tux_bridge.Prelude.Dict.{get}
use tux_bridge.Error.{ok, chain-Ran, ran, ok_inj, ok_or, map_err, is_ok, refuse_if}
use tux_bridge.Config.{Config, UserFilesConfig}
use tux_bridge.Paths.{
  PathBuf, components, join, is_under, is_under-extend, parent, file_name, normal,
}
use tux_bridge.Host.{Host, is_file, map_io, map_io_ok}
use tux_bridge.UserFiles.{max_file_bytes}
use tux_bridge.UserFiles.Resolve.{
  require_mount, validate_relative, ensure_within, resolve_existing, resolve_existing_file,
  settle_target, resolve_write_target, read_bounded, verify_hash, reject_symlink,
}

pub require_mount_ok :
    (config : Config) (name : Str) (write : Bool) (mount : UserFilesConfig)
    → require_mount config name write ≡ ok mount
    → (get name config.user_files ≡ some mount)
      × ((write ≡ true → mount.write ≡ true) × (write ≡ false → mount.read ≡ true))
unfolding require_mount
require_mount_ok config name write mount h = elim (Option-cases (get name config.user_files)) [
  | inl e ↦ absurd (ground arith)
  | inr (found, e) ↦ ground arith
]

ensure_within_ok :
    (root target : PathBuf) (done : Unit {0})
    → ensure_within root target ≡ ok done
    → is_under root target ≡ true
unfolding ensure_within
ensure_within_ok root target done h = ground arith

validate_relative_ok :
    (requested : Str) (path : PathBuf)
    → validate_relative requested false ≡ ok path
    → components requested ≡ path
unfolding validate_relative
validate_relative_ok requested path h = ground arith

module _ (host : Host) where
  -- The root is canonical, and the target lies under it.
  pub IsInMount : UserFilesConfig → host.World → PathBuf × PathBuf → Type 0
  IsInMount mount w (root, target) =
      (host.canonicalize (components mount.root) w ≡ ok root) × (is_under root target ≡ true)

  -- Moreover the target is what the host makes canonical of the requested path in the root.
  unfoldable pub IsFoundIn : UserFilesConfig → Str → host.World → PathBuf × PathBuf → Type 0
  IsFoundIn mount requested w (root, target) =
      IsInMount mount w (root, target)
      × (host.canonicalize (join root (components requested)) w ≡ ok target)

  pub resolve_existing-IsFoundIn :
      (mount : UserFilesConfig) (requested : Str) (w : host.World) (found : PathBuf × PathBuf)
      → resolve_existing host mount requested w ≡ ok found
      → IsFoundIn mount requested w found
  unfolding resolve_existing IsInMount IsFoundIn
  resolve_existing-IsFoundIn mount requested w found h =
      elim (chain-Ran (validate_relative requested false) _ h) [
        | ran relative e1 h1 ↦
            elim (chain-Ran (map_err map_io (host.canonicalize (components mount.root) w)) _ h1) [
              | ran r e2 h2 ↦
                  elim (chain-Ran (map_err map_io (host.canonicalize (join r relative) w)) _ h2) [
                    | ran t e3 h3 ↦ elim (chain-Ran (ensure_within r t) _ h3) [
                      | ran done e4 h4 ↦
                          let same = validate_relative_ok requested relative e1 in
                          subst (IsFoundIn mount requested w) (ok_inj refl h4) (
                            (map_io_ok _ r e2, ensure_within_ok r t done e4),
                            rw same (map_io_ok _ t e3),
                          )
                    ]
                  ]
            ]
      ]

  pub resolve_existing_file-IsFoundIn :
      (mount : UserFilesConfig) (requested : Str) (w : host.World) (found : PathBuf × PathBuf)
      → resolve_existing_file host mount requested w ≡ ok found
      → IsFoundIn mount requested w found
  unfolding resolve_existing_file
  resolve_existing_file-IsFoundIn mount requested w found h =
      elim (chain-Ran (resolve_existing host mount requested w) _ h) [
        | ran (root, target) e1 h1 ↦ elim (chain-Ran (reject_symlink host target w) _ h1) [
          | ran done e2 h2 ↦ elim (chain-Ran (map_err map_io (host.metadata target w)) _ h2) [
            | ran m e3 h3 ↦ elim (chain-Ran (refuse_if (not (is_file m.kind)) _) _ h3) [
              | ran d e4 h4 ↦
                  subst (IsFoundIn mount requested w) (ok_inj refl h4)
                    (resolve_existing-IsFoundIn mount requested w (root, target) e1)
            ]
          ]
        ]
      ]

  settle_target-IsInMount :
      (mount : UserFilesConfig) (root dir : PathBuf) (name : Str) (w : host.World)
      (found : PathBuf × PathBuf)
      → host.canonicalize (components mount.root) w ≡ ok root
      → is_under root dir ≡ true
      → settle_target host root (join dir (normal name ∷ [])) w ≡ ok found
      → IsInMount mount w found
  unfolding settle_target join IsInMount
  settle_target-IsInMount mount root dir name w found known inside h =
      elim (Bool-cases (is_ok (host.metadata (dir ++ normal name ∷ []) w))) [
        | inr absent ↦
            let kept : ok (root, dir ++ normal name ∷ []) ≡ ok found = rw absent at h in
            subst (IsInMount mount w) (ok_inj refl kept)
              (known, is_under-extend root dir (normal name ∷ []) inside)
        | inl present ↦
            elim (chain-Ran (reject_symlink host (dir ++ normal name ∷ []) w) _ (rw present at h)) [
              | ran done e1 h1 ↦
                  elim (chain-Ran (map_err map_io (host.canonicalize (dir ++ normal name ∷ []) w)) _
                    h1) [
                      | ran t e2 h2 ↦ elim (chain-Ran (ensure_within root t) _ h2) [
                        | ran d e3 h3 ↦
                            subst (IsInMount mount w) (ok_inj refl h3)
                              (known, ensure_within_ok root t d e3)
                      ]
                    ]
            ]
      ]

  pub resolve_write_target-IsInMount :
      (mount : UserFilesConfig) (requested : Str) (w : host.World) (found : PathBuf × PathBuf)
      → resolve_write_target host mount requested w ≡ ok found
      → IsInMount mount w found
  unfolding resolve_write_target
  resolve_write_target-IsInMount mount requested w found h =
      elim (chain-Ran (validate_relative requested true) _ h) [
        | ran relative e1 h1 ↦
            elim (chain-Ran (map_err map_io (host.canonicalize (components mount.root) w)) _ h1) [
              | ran root e2 h2 ↦ elim (chain-Ran (ok_or (parent (join root relative)) _) _ h2) [
                | ran dir e3 h3 ↦ elim (chain-Ran (map_err map_io (host.canonicalize dir w)) _ h3) [
                  | ran cdir e4 h4 ↦ elim (chain-Ran (ensure_within root cdir) _ h4) [
                    | ran done e5 h5 ↦
                        elim (chain-Ran (ok_or (file_name (join root relative)) _) _ h5) [
                          | ran name e6 h6 ↦
                              settle_target-IsInMount mount root cdir name w found
                                (map_io_ok _ root e2) (ensure_within_ok root cdir done e5) h6
                        ]
                  ]
                ]
              ]
            ]
      ]

  pub read_bounded_ok :
      (path : PathBuf) (w : host.World) (bytes : Bytes)
      → read_bounded host path w ≡ ok bytes
      → host.read path w ≡ ok bytes
  unfolding read_bounded
  read_bounded_ok path w bytes h = elim (chain-Ran (map_err map_io (host.metadata path w)) _ h) [
    | ran m e1 h1 ↦ elim (chain-Ran (refuse_if (ltb max_file_bytes m.size) _) _ h1) [
      | ran d e2 h2 ↦ map_io_ok _ bytes h2
    ]
  ]

  pub verify_hash_ok :
      (expected : Str) (current : Bytes) (done : Unit {0})
      → verify_hash host expected current ≡ ok done
      → eq_ignore_ascii_case expected (host.sha256 current) ≡ true
  unfolding verify_hash
  verify_hash_ok expected current done h = ground arith
