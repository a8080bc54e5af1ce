-- ===== src/UserFiles/Mutations.antt =====
-- What `write_file` and `patch_file` of src/user_files.rs write, and when.
use tux_bridge.Prelude.{
  ℕ, zero, suc, ◌≤◌, ◌≡◌, refl, subst, ◌⊎◌, inl, inr, Str, Bytes, as_bytes, from_utf8, true, false,
  not, Option, some, [], ◌∷◌, arith, length, is_empty, eq_ignore_ascii_case,
}
use tux_bridge.Prelude.Dict.{get}
use tux_bridge.Error.{
  ApiError, ok, err, chain-Ran, ran, ok_inj, ok_or-some, ok_or, map_err, is_ok, refuse_if,
  Result-cases,
}
use tux_bridge.Config.{Config, UserFilesConfig}
use tux_bridge.Paths.{PathBuf, components, join}
use tux_bridge.Host.{Host, map_io}
use tux_bridge.Mutation.{count_matches, replace_first}
use tux_bridge.Mutation.Write.{Plan}
use tux_bridge.Mutation.Replace.{IsReplaced, replace_first-IsReplaced}
use tux_bridge.UserFiles.{max_file_bytes, WriteMode, create, replace, WriteRequest, PatchRequest}
use tux_bridge.UserFiles.Resolve.{
  require_mount, ensure_size, resolve_existing_file, resolve_write_target, read_bounded,
  verify_hash, reject_symlink,
}
use tux_bridge.UserFiles.Write.{
  plan_mode, plan_write, plan_patch, write_file, patch_file, carry_out, replace_unique, judge_count,
}
use tux_bridge.UserFiles.Guards.{
  IsInMount, IsFoundIn, require_mount_ok, resolve_write_target-IsInMount,
  resolve_existing_file-IsFoundIn, read_bounded_ok, verify_hash_ok,
}

ensure_size_ok : (size : ℕ) (done : Unit {0}) → ensure_size size ≡ ok done → size ≤ max_file_bytes
unfolding ensure_size
ensure_size_ok size done h = ground arith

judge_count_ok :
    (count : ℕ) (updated result : Str)
    → judge_count count updated ≡ ok result
    → (count ≡ 1) × (updated ≡ result)
unfolding judge_count
judge_count_ok zero updated result h = cc
judge_count_ok (suc zero) updated result h = (refl, cc)
judge_count_ok (suc (suc n)) updated result h = cc

replace_unique-IsReplaced :
    (s old new updated : Str)
    → is_empty old ≡ false
    → replace_unique s old new ≡ ok updated
    → IsReplaced s old new updated
unfolding replace_unique
replace_unique-IsReplaced s [] new updated k h = cc
replace_unique-IsReplaced s (c ∷ old) new updated k h =
    let (once, same) =
      judge_count_ok (count_matches (length s) (c ∷ old) s) (replace_first (c ∷ old) new s) updated
        h in
    subst (IsReplaced s (c ∷ old) new) same
      (replace_first-IsReplaced s (c ∷ old) new (omega arith) once)

module _ (host : Host) where
  -- The mount grants writes, and the target lies under its canonical root.
  pub IsWritable : Config → Str → host.World → Plan → Type 0
  IsWritable config name w plan =
      (mount : UserFilesConfig) × (get name config.user_files ≡ some mount)
      × (mount.write ≡ true)
      × IsInMount host mount w (plan.root, plan.target)
      × (length plan.content ≤ max_file_bytes)

  -- To create, nothing is there; to replace, the hash is that of what is there.
  pub IsExpected : WriteMode → Option Str → PathBuf → host.World → Type 0
  IsExpected create expected target w = is_ok (host.metadata target w) ≡ false
  IsExpected replace expected target w =
      (hash : Str) × (current : Bytes) × (expected ≡ some hash)
      × (host.read target w ≡ ok current)
      × (eq_ignore_ascii_case hash (host.sha256 current) ≡ true)

  -- The plan that `plan_mode` makes, apart from the permissions.
  pub IsPlanOf : PathBuf → PathBuf → Bytes → Plan → Type 0
  IsPlanOf root target content plan =
      (plan.root ≡ root) × (plan.target ≡ target) × (plan.content ≡ content)

  plan_mode_ok :
      (root target : PathBuf) (request : WriteRequest) (w : host.World) (mode : WriteMode)
      (plan : Plan)
      → plan_mode host root target request w mode ≡ ok plan
      → IsPlanOf root target (as_bytes request.content) plan
        × IsExpected mode request.expected_sha256 target w
  unfolding plan_mode IsExpected IsPlanOf
  plan_mode_ok root target request w create plan h =
      elim (chain-Ran (refuse_if (is_ok (host.metadata target w)) _) _ h) [
        | ran d e1 h1 ↦ ((ground arith, ground arith, ground arith), ground arith)
      ]
  plan_mode_ok root target request w replace plan h =
      elim (chain-Ran (refuse_if (not (is_ok (host.metadata target w))) _) _ h) [
        | ran d1 e1 h1 ↦ elim (chain-Ran (reject_symlink host target w) _ h1) [
          | ran d2 e2 h2 ↦ elim (chain-Ran (read_bounded host target w) _ h2) [
            | ran current e3 h3 ↦ elim (chain-Ran (ok_or request.expected_sha256 _) _ h3) [
              | ran hash e4 h4 ↦ elim (chain-Ran (verify_hash host hash current) _ h4) [
                | ran d3 e5 h5 ↦ elim (chain-Ran (map_err map_io (host.metadata target w)) _ h5) [
                  | ran m e6 h6 ↦ (
                    (ground arith, ground arith, ground arith),
                    (
                      hash,
                      current,
                      ok_or-some _ _ hash e4,
                      read_bounded_ok host target w current e3,
                      verify_hash_ok host hash current d3 e5,
                    ),
                  )
                ]
              ]
            ]
          ]
        ]
      ]

  plan_write_ok :
      (config : Config) (request : WriteRequest) (w : host.World) (plan : Plan)
      → plan_write host config request w ≡ ok plan
      → IsWritable config request.mount w plan
        × (plan.content ≡ as_bytes request.content)
        × IsExpected request.mode request.expected_sha256 plan.target w
  unfolding plan_write IsWritable IsPlanOf
  plan_write_ok config request w plan h =
      elim (chain-Ran (require_mount config request.mount true) _ h) [
        | ran mount e1 h1 ↦
            elim (chain-Ran (ensure_size (length (as_bytes request.content))) _ h1) [
              | ran d1 e2 h2 ↦
                  elim (chain-Ran (resolve_write_target host mount request.path w) _ h2) [
                    | ran (root, target) e3 h3 ↦
                        let ((same_root, same_target, same_content), expected) =
                          plan_mode_ok root target request w request.mode plan h3 in
                        let (found, grants) = require_mount_ok config request.mount true mount e1 in
                        let inside =
                          resolve_write_target-IsInMount host mount request.path w (root, target)
                            e3 in
                        let small = ensure_size_ok _ d1 e2 in
                        (
                          (
                            mount,
                            found,
                            grants.0 refl,
                            rw (same_root, same_target) inside,
                            rw same_content small,
                          ),
                          same_content,
                          rw same_target expected,
                        )
                  ]
            ]
      ]

  -- `write_file` on a mount returns an error and changes nothing, or carries out a plan for the content
  -- of the request in a mount that grants writes, under its canonical root, within the size limit,
  -- on a target that is new, or has the expected hash.
  pub mount_write_file_guarded :
      (config : Config) (request : WriteRequest) (w : host.World)
      → ((e : ApiError) × (write_file host config request w ≡ (err e, w)))
        ⊎ ((plan : Plan) × IsWritable config request.mount w plan
            × (plan.content ≡ as_bytes request.content)
            × IsExpected request.mode request.expected_sha256 plan.target w
            × (write_file host config request w ≡ carry_out host (ok plan) w))
  unfolding write_file carry_out
  mount_write_file_guarded config request w =
      elim (Result-cases (plan_write host config request w)) [
        | inr (e, refused) ↦ inl (e, rw refused refl)
        | inl (plan, made) ↦
            let (writable, content, expected) = plan_write_ok config request w plan made in
            inr (plan, writable, content, expected, rw made refl)
      ]

  -- The target is the requested path, in canonical form; its content has the request's hash and is
  -- text; the plan has one occurrence replaced.
  pub IsPatch : PatchRequest → host.World → Plan → Type 0
  IsPatch request w plan =
      (current : Bytes) × (original : Str) × (updated : Str) × (host.canonicalize
          (join plan.root (components request.path)) w
        ≡ ok plan.target)
      × (host.read plan.target w ≡ ok current)
      × (eq_ignore_ascii_case request.expected_sha256 (host.sha256 current) ≡ true)
      × (from_utf8 current ≡ some original)
      × IsReplaced original request.old request.new updated
      × (plan.content ≡ as_bytes updated)

  plan_patch_ok :
      (config : Config) (request : PatchRequest) (w : host.World) (plan : Plan)
      → plan_patch host config request w ≡ ok plan
      → IsWritable config request.mount w plan × IsPatch request w plan
  unfolding plan_patch IsWritable IsPatch IsFoundIn
  plan_patch_ok config request w plan h =
      elim (chain-Ran (refuse_if (is_empty request.old) _) _ h) [
        | ran d1 e1 h1 ↦ elim (chain-Ran (require_mount config request.mount true) _ h1) [
          | ran mount e2 h2 ↦
              elim (chain-Ran (resolve_existing_file host mount request.path w) _ h2) [
                | ran (root, target) e3 h3 ↦ elim (chain-Ran (reject_symlink host target w) _ h3) [
                  | ran d2 e4 h4 ↦ elim (chain-Ran (read_bounded host target w) _ h4) [
                    | ran current e5 h5 ↦
                        elim (chain-Ran (verify_hash host request.expected_sha256 current) _ h5) [
                          | ran d3 e6 h6 ↦ elim (chain-Ran (ok_or (from_utf8 current) _) _ h6) [
                            | ran original e7 h7 ↦
                                elim (chain-Ran (replace_unique original request.old request.new) _
                                  h7) [
                                    | ran updated e8 h8 ↦
                                        elim (chain-Ran (ensure_size (length (as_bytes updated))) _
                                          h8) [
                                            | ran d4 e9 h9 ↦
                                                elim (chain-Ran
                                                  (map_err map_io (host.metadata target w)) _ h9) [
                                                    | ran m e10 h10 ↦
                                                        let (found, grants) =
                                                          require_mount_ok config request.mount true
                                                            mount e2 in
                                                        let located =
                                                          resolve_existing_file-IsFoundIn host mount
                                                            request.path w (root, target) e3 in
                                                        let full : is_empty request.old ≡ false =
                                                          ground arith in
                                                        subst
                                                          (λ p.
                                                            IsWritable config request.mount w p
                                                            × IsPatch request w p)
                                                          (ok_inj refl h10)
                                                          (
                                                            (
                                                            mount,
                                                            found,
                                                            grants.0 refl,
                                                            located.0,
                                                            ensure_size_ok _ d4 e9,
                                                            ),
                                                            (
                                                            current,
                                                            original,
                                                            updated,
                                                            located.1,
                                                            read_bounded_ok host target w current
                                                            e5,
                                                            verify_hash_ok host
                                                            request.expected_sha256 current d3 e6,
                                                            ok_or-some _ _ original e7,
                                                            replace_unique-IsReplaced original
                                                            request.old request.new updated full e8,
                                                            refl,
                                                            ),
                                                          )
                                                  ]
                                          ]
                                  ]
                          ]
                        ]
                  ]
                ]
              ]
        ]
      ]

  -- `patch_file` on a mount returns an error and changes nothing, or carries out a plan for the file
  -- that the requested path names in the canonical root of a mount that grants writes, and which lies
  -- under that root. Its content has the expected hash, and the plan replaces one occurrence of the
  -- old text: none begins before that one, and none lies in the text after it.
  pub mount_patch_file_guarded :
      (config : Config) (request : PatchRequest) (w : host.World)
      → ((e : ApiError) × (patch_file host config request w ≡ (err e, w)))
        ⊎ ((plan : Plan) × IsWritable config request.mount w plan
            × IsPatch request w plan
            × (patch_file host config request w ≡ carry_out host (ok plan) w))
  unfolding patch_file carry_out
  mount_patch_file_guarded config request w =
      elim (Result-cases (plan_patch host config request w)) [
        | inr (e, refused) ↦ inl (e, rw refused refl)
        | inl (plan, made) ↦
            let (writable, patched) = plan_patch_ok config request w plan made in
            inr (plan, writable, patched, rw made refl)
      ]
