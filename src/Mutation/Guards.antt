-- ===== src/Mutation/Guards.antt =====
-- What holds before `write_file` or `patch_file` (src/mutation.rs) touches the file system.
use tux_bridge.Prelude.{
  ◌≤◌, ◌≡◌, refl, ◌⊎◌, inl, inr, Str, Bytes, as_bytes, true, false, Option, some, ◌++◌, [], ◌∷◌,
  length, ltb, arith, Option-cases, Bool-cases, eq_ignore_ascii_case,
}
use tux_bridge.Prelude.Dict.{get}
use tux_bridge.Error.{ApiError, ok, err, Result-cases}
use tux_bridge.Config.{Config, WorkspaceConfig}
use tux_bridge.Paths.{
  PathBuf, components, join, is_under, is_under-extend, parent, file_name, normal,
}
use tux_bridge.Host.{Host, is_file}
use tux_bridge.Mutation.{
  WriteMode, create, replace, WriteRequest, exists, max_mutation_bytes, workspace_with_capability,
  ensure_mutation_size, resolve_write_target, resolve_existing_file, reject_symlink, read_bounded,
  verify_expected_hash, canonical_root, settle_target, validate_relative_file_path, ensure_within,
}
use tux_bridge.Mutation.Write.{Plan, plan_write, plan_mode, write_file, carry_out}

pub workspace_with_capability_ok :
    (config : Config) (name : Str) (workspace : WorkspaceConfig)
    → workspace_with_capability config name true ≡ ok workspace
    → (get name config.workspaces ≡ some workspace) × (workspace.capabilities.fs_write ≡ true)
unfolding workspace_with_capability
workspace_with_capability_ok config name workspace h =
    elim (Option-cases (get name config.workspaces)) [
      | inl e ↦ absurd (ground arith)
      | inr (found, e) ↦ elim (Bool-cases found.capabilities.fs_write) [
        | inl t ↦ ground arith
        | inr f ↦ absurd (ground arith)
      ]
    ]

module _ (host : Host) where
  ensure_within_ok :
      (root target : PathBuf) → ensure_within root target ≡ ok tt → is_under root target ≡ true
  unfolding ensure_within
  ensure_within_ok root target h = ground arith

  settle_target_under :
      (root dir : PathBuf) (name : Str) (w : host.World) (r t : PathBuf)
      → is_under root dir ≡ true
      → settle_target host root (join dir (normal name ∷ [])) w ≡ ok (r, t)
      → (r ≡ root) × (is_under r t ≡ true)
  unfolding settle_target join ensure_within
  settle_target_under root dir name w r t h e =
      let longer = is_under-extend root dir (normal name ∷ []) h in
      elim (Bool-cases (exists host (dir ++ normal name ∷ []) w)) [
        | inr f ↦ ground arith
        | inl f ↦ elim (Result-cases (reject_symlink host (dir ++ normal name ∷ []) w)) [
          | inr (x, p) ↦ absurd (ground arith)
          | inl (x, p) ↦ elim (Result-cases (host.canonicalize (dir ++ normal name ∷ []) w)) [
            | inr (y, q) ↦ absurd (ground arith)
            | inl (y, q) ↦ elim (Bool-cases (is_under root y)) [
              | inl u ↦ ground arith
              | inr u ↦ absurd (ground arith)
            ]
          ]
        ]
      ]

  canonical_root_ok :
      (workspace : WorkspaceConfig) (w : host.World) (root : PathBuf)
      → canonical_root host workspace w ≡ ok root
      → host.canonicalize (components workspace.root) w ≡ ok root
  unfolding canonical_root
  canonical_root_ok workspace w root h =
      elim (Result-cases (host.canonicalize (components workspace.root) w)) [
        | inl (r, e) ↦ ground arith
        | inr (r, e) ↦ absurd (ground arith)
      ]

  resolve_write_target_ok :
      (workspace : WorkspaceConfig) (requested : Str) (w : host.World) (root target : PathBuf)
      → resolve_write_target host workspace requested w ≡ ok (root, target)
      → (host.canonicalize (components workspace.root) w ≡ ok root) × (is_under root target ≡ true)
  unfolding resolve_write_target ensure_within
  resolve_write_target_ok workspace requested w root target h =
      elim (Result-cases (validate_relative_file_path requested)) [
        | inr (x, e) ↦ absurd (ground arith)
        | inl (relative, e) ↦ elim (Result-cases (canonical_root host workspace w)) [
          | inr (x, p) ↦ absurd (ground arith)
          | inl (r, p) ↦ elim (Option-cases (parent (join r relative))) [
            | inl q ↦ absurd (ground arith)
            | inr (dir, q) ↦ elim (Result-cases (host.canonicalize dir w)) [
              | inr (x, c) ↦ absurd (ground arith)
              | inl (cdir, c) ↦ elim (Bool-cases (is_under r cdir)) [
                | inr u ↦ absurd (ground arith)
                | inl u ↦ elim (Option-cases (file_name (join r relative))) [
                  | inl f ↦ absurd (ground arith)
                  | inr (name, f) ↦
                      let rest : settle_target host r (join cdir (normal name ∷ [])) w
                          ≡ ok (root, target) =
                        rw (e, p, q, c, u, f) at h in
                      let (same, inside) = settle_target_under r cdir name w root target u rest in
                      let known = canonical_root_ok workspace w r p in (rw same known, inside)
                ]
              ]
            ]
          ]
        ]
      ]

  validate_relative_file_path_ok :
      (requested : Str) (path : PathBuf)
      → validate_relative_file_path requested ≡ ok path
      → components requested ≡ path
  unfolding validate_relative_file_path
  validate_relative_file_path_ok requested path h = ground arith

  pub resolve_existing_file_ok :
      (workspace : WorkspaceConfig) (requested : Str) (w : host.World) (root target : PathBuf)
      → resolve_existing_file host workspace requested w ≡ ok (root, target)
      → (host.canonicalize (components workspace.root) w ≡ ok root)
        × (host.canonicalize (join root (components requested)) w ≡ ok target)
        × (is_under root target ≡ true)
  unfolding resolve_existing_file ensure_within
  resolve_existing_file_ok workspace requested w root target h =
      elim (Result-cases (validate_relative_file_path requested)) [
        | inr (x, e) ↦ absurd (ground arith)
        | inl (relative, e) ↦ elim (Result-cases (canonical_root host workspace w)) [
          | inr (x, p) ↦ absurd (ground arith)
          | inl (r, p) ↦ elim (Result-cases (reject_symlink host (join r relative) w)) [
            | inr (x, q) ↦ absurd (ground arith)
            | inl (done, q) ↦ elim (Result-cases (host.canonicalize (join r relative) w)) [
              | inr (x, c) ↦ absurd (ground arith)
              | inl (t, c) ↦ elim (Bool-cases (is_under r t)) [
                | inr u ↦ absurd (ground arith)
                | inl u ↦ elim (Result-cases (host.metadata t w)) [
                  | inr (x, m) ↦ absurd (ground arith)
                  | inl (m, l) ↦ elim (Bool-cases (is_file m.kind)) [
                    | inr k ↦ absurd (ground arith)
                    | inl k ↦
                        let known = canonical_root_ok workspace w r p in
                        let same = validate_relative_file_path_ok requested relative e in
                        let found : host.canonicalize (join r (components requested)) w ≡ ok t =
                          rw same c in
                        ground arith
                  ]
                ]
              ]
            ]
          ]
        ]
      ]

  pub read_bounded_ok :
      (path : PathBuf) (w : host.World) (bytes : Bytes)
      → read_bounded host path w ≡ ok bytes
      → host.read path w ≡ ok bytes
  unfolding read_bounded
  read_bounded_ok path w bytes h = elim (Result-cases (host.metadata path w)) [
    | inr (x, e) ↦ absurd (ground arith)
    | inl (m, e) ↦ elim (Bool-cases (ltb max_mutation_bytes m.size)) [
      | inl t ↦ absurd (ground arith)
      | inr f ↦ elim (Result-cases (host.read path w)) [
        | inr (x, r) ↦ absurd (ground arith)
        | inl (b, r) ↦ ground arith
      ]
    ]
  ]

  -- What the mode asks of the target: nothing is there; or the expected hash is the hash of what is
  -- there, in either case of letters.
  pub IsFresh : WriteMode → Option Str → PathBuf → host.World → Type 0
  IsFresh create expected target w = exists host target w ≡ false
  IsFresh replace expected target w =
      (hash : Str) × (current : Bytes) × (expected ≡ some hash)
      × (host.read target w ≡ ok current)
      × (eq_ignore_ascii_case hash (host.sha256 current) ≡ true)

  plan_mode_ok :
      (root target : PathBuf) (request : WriteRequest) (w : host.World) (mode : WriteMode)
      (plan : Plan)
      → plan_mode host root target request w mode ≡ ok plan
      → (plan.root ≡ root)
        × (plan.target ≡ target)
        × (plan.content ≡ as_bytes request.content)
        × IsFresh mode request.expected_sha256 target w
  unfolding plan_mode IsFresh
  plan_mode_ok root target request w create plan h = elim (Bool-cases (exists host target w)) [
    | inl t ↦ absurd (ground arith)
    | inr f ↦ ground arith
  ]
  plan_mode_ok root target request w replace plan h = elim (Bool-cases (exists host target w)) [
    | inr t ↦ absurd (ground arith)
    | inl f ↦ elim (Result-cases (reject_symlink host target w)) [
      | inr (x, e) ↦ absurd (ground arith)
      | inl (x, e) ↦ elim (Result-cases (read_bounded host target w)) [
        | inr (x, r) ↦ absurd (ground arith)
        | inl (current, r) ↦ elim (Option-cases request.expected_sha256) [
          | inl n ↦ absurd (ground arith)
          | inr (hash, n) ↦ elim (Result-cases (verify_expected_hash host hash current)) [
            | inr (x, v) ↦ absurd (ground arith)
            | inl (x, v) ↦ elim (Result-cases (host.metadata target w)) [
              | inr (x, m) ↦ absurd (ground arith)
              | inl (m, l) ↦
                  let content = read_bounded_ok target w current r in
                  let agrees : eq_ignore_ascii_case hash (host.sha256 current) ≡ true =
                    unfold verify_expected_hash in ground arith in
                  let made : ok (record {
                    root = root;
                    target = target;
                    content = as_bytes request.content;
                    permissions = some m.permissions;
                    no_clobber = false;
                  })
                      ≡ ok plan =
                    rw (f, e, r, n, v, l) at h in
                  (ground arith, ground arith, ground arith, (hash, current, n, content, agrees))
            ]
          ]
        ]
      ]
    ]
  ]

  -- The guards of `write_file` when it goes on to write: the workspace allows writes, the target lies
  -- under the canonical root, the content keeps to the limit, and the target is as the mode asks.
  pub IsGuardedWrite : Config → WriteRequest → host.World → Plan → Type 0
  IsGuardedWrite config request w plan =
      (workspace : WorkspaceConfig) × (get request.workspace config.workspaces ≡ some workspace)
      × (workspace.capabilities.fs_write ≡ true)
      × (host.canonicalize (components workspace.root) w ≡ ok plan.root)
      × (is_under plan.root plan.target ≡ true)
      × (plan.content ≡ as_bytes request.content)
      × (length plan.content ≤ max_mutation_bytes)
      × IsFresh request.mode request.expected_sha256 plan.target w

  plan_write_ok :
      (config : Config) (request : WriteRequest) (w : host.World) (plan : Plan)
      → plan_write host config request w ≡ ok plan
      → IsGuardedWrite config request w plan
  unfolding plan_write IsGuardedWrite
  plan_write_ok config request w plan h =
      elim (Result-cases (workspace_with_capability config request.workspace true)) [
        | inr (x, e) ↦ absurd (ground arith)
        | inl (workspace, e) ↦
            elim (Result-cases (ensure_mutation_size (length (as_bytes request.content)))) [
              | inr (x, s) ↦ absurd (ground arith)
              | inl (x, s) ↦
                  elim (Result-cases (resolve_write_target host workspace request.path w)) [
                    | inr (y, r) ↦ absurd (ground arith)
                    | inl ((root, target), r) ↦
                        let (found, allowed) =
                          workspace_with_capability_ok config request.workspace workspace e in
                        let (known, inside) =
                          resolve_write_target_ok workspace request.path w root target r in
                        let planned : plan_mode host root target request w request.mode ≡ ok plan =
                          rw (e, s, r) at h in
                        let (same_root, same_target, same_content, fresh) =
                          plan_mode_ok root target request w request.mode plan planned in
                        let small : length (as_bytes request.content) ≤ max_mutation_bytes =
                          unfold ensure_mutation_size in ground arith in
                        (
                          workspace,
                          found,
                          allowed,
                          rw same_root known,
                          rw (same_root, same_target) inside,
                          same_content,
                          rw same_content small,
                          rw same_target fresh,
                        )
                  ]
            ]
      ]

  -- `write_file` returns an error and leaves the file system as it was, or it carries out a plan that
  -- passed every guard: the capability, the containment in the workspace's root, the size limit,
  -- and, to replace, that the expected hash is the hash of the current content.
  pub write_file_guarded :
      (config : Config) (request : WriteRequest) (w : host.World)
      → ((e : ApiError) × (write_file host config request w ≡ (err e, w)))
        ⊎ ((plan : Plan) × IsGuardedWrite config request w plan
            × (write_file host config request w ≡ carry_out host (ok plan) w))
  unfolding write_file carry_out
  write_file_guarded config request w = elim (Result-cases (plan_write host config request w)) [
    | inr (e, refused) ↦ inl (e, rw refused refl)
    | inl (plan, made) ↦ inr (plan, plan_write_ok config request w plan made, rw made refl)
  ]
