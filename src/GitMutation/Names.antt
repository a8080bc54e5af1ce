-- ===== src/GitMutation/Names.antt =====
-- The checks of src/git_mutation.rs that come before the first process.
use tux_bridge.Prelude.{
  ◌≤◌, ◌≡◌, refl, ◌⊎◌, inl, inr, Str, codes, Bool, true, false, some, Option-cases, Bool-cases,
  List, [], ◌∷◌, All, any, all, is_empty, length, starts_with, arith, ltb,
}
use tux_bridge.Prelude.Dict.{get}
use tux_bridge.Error.{ApiError, Result-cases, ok, err, bad_request, says}
use tux_bridge.Config.{Config, WorkspaceConfig}
use tux_bridge.Paths.{components, escapes, is_absolute}
use tux_bridge.Process.{Processes, ◌>>=◌, ◌>>◌, lift}
use tux_bridge.GitMutation.{
  GitAddRequest, GitPushRequest, is_remote_char, require_workspace, allow, validate_remote,
  validate_repo_path, validate_repo_paths,
}
use tux_bridge.GitMutation.Handlers.{git_add, git_push}

pub IsGranted : Config → Str → Bool → Bool → Type 0
IsGranted config name write network =
    (workspace : WorkspaceConfig) × (get name config.workspaces ≡ some workspace)
    × ((write ≡ false) ⊎ (workspace.capabilities.git_write ≡ true))
    × ((network ≡ false) ⊎ (workspace.capabilities.git_network ≡ true))

require_workspace_ok :
    (config : Config) (name : Str) (write network : Bool) (workspace : WorkspaceConfig)
    → require_workspace config name write network ≡ ok workspace
    → IsGranted config name write network
unfolding require_workspace allow IsGranted
require_workspace_ok config name write network workspace h =
    elim (Option-cases (get name config.workspaces)) [
      | inl e ↦ absurd (ground arith)
      | inr (found, e) ↦ elim (Bool-cases found.capabilities.git_write) [
        | inl g ↦ elim (Bool-cases found.capabilities.git_network) [
          | inl n ↦ (found, e, inr g, inr n)
          | inr n ↦ elim (Bool-cases network) [
            | inl u ↦ absurd (ground arith)
            | inr u ↦ (found, e, inr g, inl u)
          ]
        ]
        | inr g ↦ elim (Bool-cases write) [
          | inl u ↦ absurd (ground arith)
          | inr u ↦ elim (Bool-cases found.capabilities.git_network) [
            | inl n ↦ (found, e, inl u, inr n)
            | inr n ↦ elim (Bool-cases network) [
              | inl v ↦ absurd (ground arith)
              | inr v ↦ (found, e, inl u, inl v)
            ]
          ]
        ]
      ]
    ]

-- Such a name is never read as an option or a URL.
pub IsRemoteName : Str → Type 0
IsRemoteName remote =
    (is_empty remote ≡ false)
    × (starts_with (codes "-") remote ≡ false)
    × (all is_remote_char remote ≡ true)

validate_remote_ok : (remote : Str) → validate_remote remote ≡ ok tt → IsRemoteName remote
unfolding validate_remote IsRemoteName
validate_remote_ok remote h = elim (Bool-cases (is_empty remote)) [
  | inl a ↦ absurd (ground arith)
  | inr a ↦ elim (Bool-cases (starts_with (codes "-") remote)) [
    | inl b ↦ absurd (ground arith)
    | inr b ↦ elim (Bool-cases (all is_remote_char remote)) [
      | inl c ↦ (a, b, c)
      | inr c ↦ absurd (ground arith)
    ]
  ]
]

-- A path that `git add` may get.
pub IsRepoPath : Str → Type 0
IsRepoPath raw =
    (is_empty raw ≡ false)
    × (is_absolute (components raw) ≡ false)
    × (any escapes (components raw) ≡ false)

validate_repo_path_ok : (raw : Str) → validate_repo_path raw ≡ ok tt → IsRepoPath raw
unfolding validate_repo_path IsRepoPath
validate_repo_path_ok raw h = elim (Bool-cases (is_empty raw)) [
  | inl a ↦ absurd (ground arith)
  | inr a ↦ elim (Bool-cases (is_absolute (components raw))) [
    | inl b ↦ absurd (ground arith)
    | inr b ↦ elim (Bool-cases (any escapes (components raw))) [
      | inl c ↦ absurd (ground arith)
      | inr c ↦ (a, b, c)
    ]
  ]
]

validate_repo_paths_ok :
    (paths : List Str) → validate_repo_paths paths ≡ ok tt → All IsRepoPath paths
unfolding validate_repo_paths
validate_repo_paths_ok [] h = tt
validate_repo_paths_ok (path ∷ paths) h = elim (Result-cases (validate_repo_path path)) [
  | inl (done, e) ↦ (
    validate_repo_path_ok path e,
    validate_repo_paths_ok paths (rw (e, validate_repo_paths) at h),
  )
  | inr (x, e) ↦ absurd (ground arith)
]

module _ (host : Processes) (config : Config) where
  -- `git_push` is refused before any process has run, or the remote is a plain name and the workspace
  -- grants both writes and the network.
  pub git_push-IsGranted :
      (request : GitPushRequest) (w : host.World)
      → ((e : ApiError) × (git_push host config request w ≡ (err e, w)))
        ⊎ (IsRemoteName request.remote × IsGranted config request.workspace true true)
  unfolding git_push ◌>>=◌ ◌>>◌ lift
  git_push-IsGranted request w = elim (Result-cases (validate_remote request.remote)) [
    | inr (e, r) ↦ inl (e, rw r refl)
    | inl (done, r) ↦ elim (Result-cases (require_workspace config request.workspace true true)) [
      | inr (e, g) ↦ inl (e, rw (r, g) refl)
      | inl (workspace, g) ↦ inr (
        validate_remote_ok request.remote r,
        require_workspace_ok config request.workspace true true workspace g,
      )
    ]
  ]

  -- `git_add` is refused before any process has run, or it has one to 1024 paths, each of them relative
  -- and without `..`, and the workspace grants writes.
  pub git_add-IsGranted :
      (request : GitAddRequest) (w : host.World)
      → ((e : ApiError) × (git_add host config request w ≡ (err e, w)))
        ⊎ ((is_empty request.paths ≡ false)
            × (length request.paths ≤ 1024)
            × All IsRepoPath request.paths
            × IsGranted config request.workspace true false)
  unfolding git_add ◌>>=◌ ◌>>◌ lift
  git_add-IsGranted request w = elim (Bool-cases (is_empty request.paths)) [
    | inl z ↦ inl (bad_request (says "paths must not be empty"), rw z refl)
    | inr z ↦ elim (Bool-cases (ltb 1024 (length request.paths))) [
      | inl l ↦ inl (bad_request (says "too many Git paths"), rw (z, l) refl)
      | inr l ↦ elim (Result-cases (validate_repo_paths request.paths)) [
        | inr (e, p) ↦ inl (e, rw (z, l, p) refl)
        | inl (done, p) ↦
            elim (Result-cases (require_workspace config request.workspace true false)) [
              | inr (e, g) ↦ inl (e, rw (z, l, p, g) refl)
              | inl (workspace, g) ↦ inr (
                z,
                ground arith,
                validate_repo_paths_ok request.paths p,
                require_workspace_ok config request.workspace true false workspace g,
              )
            ]
      ]
    ]
  ]
