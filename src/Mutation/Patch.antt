-- ===== src/Mutation/Patch.antt =====
-- What `patch_file` (src/mutation.rs) writes, and when.
use tux_bridge.Prelude.{
  ◌≤◌, ◌<◌, ◌≡◌, refl, ap, ◌∙◌, subst, ◌⊎◌, inl, inr, Str, Bytes, as_bytes, from_utf8, true, false,
  some, ◌++◌, [], ◌∷◌, length, is_empty, contains, arith, Option-cases, Bool-cases,
  eq_ignore_ascii_case,
}
use tux_bridge.Prelude.Dict.{get}
use tux_bridge.Error.{ApiError, ApiResult, ok, err, Result-cases}
use tux_bridge.Config.{Config, WorkspaceConfig}
use tux_bridge.Paths.{components, join, is_under}
use tux_bridge.Host.{Host}
use tux_bridge.Mutation.{
  PatchRequest, max_mutation_bytes, workspace_with_capability, ensure_mutation_size,
  resolve_existing_file, reject_symlink, read_bounded, verify_expected_hash, apply_unique_replace,
}
use tux_bridge.Mutation.Write.{Plan, plan_patch, patch_file, carry_out}
use tux_bridge.Mutation.Guards.{
  workspace_with_capability_ok, resolve_existing_file_ok, read_bounded_ok,
}
use tux_bridge.Mutation.Replace.{NoneStarts, apply_unique_replace_ok}

module _ (host : Host) where
  -- The request's hash is that of the current content, which is text with the old text in it; none
  -- begins before it and none lies after it; the plan puts the new text in its place.
  unfoldable pub IsPatchOf : PatchRequest → Bytes → Bytes → Type 0
  IsPatchOf request current content =
      (eq_ignore_ascii_case request.expected_sha256 (host.sha256 current) ≡ true)
      × ((before : Str) × (after : Str) × (from_utf8 current
            ≡ some (before ++ request.old ++ after))
          × (content ≡ as_bytes (before ++ request.new ++ after))
          × NoneStarts request.old before (request.old ++ after)
          × (contains request.old after ≡ false))

  pub IsGuardedPatch : Config → PatchRequest → host.World → Plan → Type 0
  IsGuardedPatch config request w plan =
      (workspace : WorkspaceConfig) × (current : Bytes) × (get request.workspace config.workspaces
        ≡ some workspace)
      × (workspace.capabilities.fs_write ≡ true)
      × (host.canonicalize (components workspace.root) w ≡ ok plan.root)
      × (host.canonicalize (join plan.root (components request.path)) w ≡ ok plan.target)
      × (is_under plan.root plan.target ≡ true)
      × (host.read plan.target w ≡ ok current)
      × (length plan.content ≤ max_mutation_bytes)
      × IsPatchOf request current plan.content

  -- From the current content on.
  edit_ok :
      (request : PatchRequest) (current : Bytes) (text updated : Str)
      → is_empty request.old ≡ false
      → verify_expected_hash host request.expected_sha256 current ≡ ok tt
      → from_utf8 current ≡ some text
      → apply_unique_replace text request.old request.new ≡ ok updated
      → IsPatchOf request current (as_bytes updated)
  unfolding IsPatchOf verify_expected_hash
  edit_ok request current text updated full v u a =
      let (before, after, whole, made, early, last) =
        apply_unique_replace_ok text request.old request.new updated (nonempty request.old full)
          a in
      (ground arith, (before, after, u ∙ ap some whole, ap as_bytes made, early, last))
    where
      nonempty : (s : Str) → is_empty s ≡ false → 0 < length s
      nonempty [] h = cc
      nonempty (c ∷ s) h = omega arith

  ok_inj : {p q : Plan} {a b : ApiResult Plan} → a ≡ b → a ≡ ok p → b ≡ ok q → p ≡ q
  ok_inj h i j = cc

  plan_patch_ok :
      (config : Config) (request : PatchRequest) (w : host.World) (plan : Plan)
      → plan_patch host config request w ≡ ok plan
      → IsGuardedPatch config request w plan
  unfolding plan_patch IsGuardedPatch
  plan_patch_ok config request w plan h = elim (Bool-cases (is_empty request.old)) [
    | inl t ↦ absurd (ground arith)
    | inr full ↦ elim (Result-cases (workspace_with_capability config request.workspace true)) [
      | inr (x, e) ↦ absurd (ground arith)
      | inl (workspace, e) ↦
          elim (Result-cases (resolve_existing_file host workspace request.path w)) [
            | inr (x, r) ↦ absurd (ground arith)
            | inl ((root, target), r) ↦
                let (found, allowed) =
                  workspace_with_capability_ok config request.workspace workspace e in
                let (known, resolved, inside) =
                  resolve_existing_file_ok host workspace request.path w root target r in
                elim (Result-cases (reject_symlink host target w)) [
                  | inr (x, s) ↦ absurd (ground arith)
                  | inl (done, s) ↦ elim (Result-cases (read_bounded host target w)) [
                    | inr (x, b) ↦ absurd (ground arith)
                    | inl (current, b) ↦
                        elim (Result-cases
                          (verify_expected_hash host request.expected_sha256 current)) [
                            | inr (x, v) ↦ absurd (ground arith)
                            | inl (done, v) ↦ elim (Option-cases (from_utf8 current)) [
                              | inl u ↦ absurd (ground arith)
                              | inr (text, u) ↦
                                  elim (Result-cases
                                    (apply_unique_replace text request.old request.new)) [
                                      | inr (x, a) ↦ absurd (ground arith)
                                      | inl (updated, a) ↦
                                          elim (Result-cases
                                            (ensure_mutation_size (length (as_bytes updated)))) [
                                              | inr (x, z) ↦ absurd (ground arith)
                                              | inl (done, z) ↦
                                                  elim (Result-cases (host.metadata target w)) [
                                                    | inr (x, m) ↦ absurd (ground arith)
                                                    | inl (m, l) ↦
                                                        let made : Plan = record {
                                                          root = root;
                                                          target = target;
                                                          content = as_bytes updated;
                                                          permissions = some m.permissions;
                                                          no_clobber = false;
                                                        } in
                                                        let same : ok made ≡ ok plan =
                                                          rw (full, e, r, s, b, v, u, a, z, l) at
                                                            h in
                                                        let small : length (as_bytes updated)
                                                            ≤ max_mutation_bytes =
                                                          unfold ensure_mutation_size in
                                                          ground arith in
                                                        let patched =
                                                          edit_ok request current text updated full
                                                            v u a in
                                                        let content =
                                                          read_bounded_ok host target w current b in
                                                        subst
                                                          (λ p. IsGuardedPatch config request w p)
                                                          (ok_inj same refl refl)
                                                          (
                                                            workspace, current, found, allowed,
                                                            known, resolved, inside, content, small,
                                                            patched,
                                                          )
                                                  ]
                                            ]
                                    ]
                            ]
                          ]
                  ]
                ]
          ]
    ]
  ]

  -- `patch_file` returns an error and leaves the file system as it was, or it carries out a plan for
  -- the file that the requested path names in the canonical root of a workspace that allows writes,
  -- and which lies under that root. Its content has the expected hash, and the plan replaces one
  -- occurrence of the old text: none begins before that one, and none lies in the text after it.
  pub patch_file_guarded :
      (config : Config) (request : PatchRequest) (w : host.World)
      → ((e : ApiError) × (patch_file host config request w ≡ (err e, w)))
        ⊎ ((plan : Plan) × IsGuardedPatch config request w plan
            × (patch_file host config request w ≡ carry_out host (ok plan) w))
  unfolding patch_file carry_out
  patch_file_guarded config request w = elim (Result-cases (plan_patch host config request w)) [
    | inr (e, refused) ↦ inl (e, rw refused refl)
    | inl (plan, made) ↦ inr (plan, plan_patch_ok config request w plan made, rw made refl)
  ]
