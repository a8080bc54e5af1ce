-- ===== src/GitExtra/Bounds.antt =====
-- The sizes of the answers of src/git_extra.rs.
use tux_bridge.Prelude.{
  ℕ, ◌≤◌, ◌≡◌, inl, inr, Str, Option-cases, List, [], ◌∷◌, length, length-take, take, arith, ◌+◌,
  suc,
}
use tux_bridge.Error.{ApiResult, Result-cases, ok, err}
use tux_bridge.Config.{Config}
use tux_bridge.Paths.{PathBuf}
use tux_bridge.Process.{Processes, Act, continue, ◌>>=◌, ◌>>◌, lift}
use tux_bridge.Prelude.Lines.{lines}
use tux_bridge.Git.Parse.{split_once}
use tux_bridge.GitExtra.{
  GitExtraRequest, stash_entries, remote_infos, non_blank, git_remotes, git_stashes,
}

length-stash_entries :
    (index : ℕ) (rows : List Str) → length (stash_entries index rows) ≤ length rows
unfolding stash_entries
length-stash_entries index [] = omega arith
length-stash_entries index (line ∷ rest) =
    let others = length-stash_entries (index + 1) rest in
    elim (Option-cases (split_once (9 ∷ []) line)) [
      | inl e ↦ rw (e, stash_entries) (omega arith)
      | inr (parts, e) ↦ rw (e, stash_entries) (omega arith)
    ]

length-take_le : (n : ℕ) (rows : List Str) → length (take n rows) ≤ n
length-take_le n rows = omega (arith, length-take n rows)

module _ {W : Type 0} where
  -- Whatever the computation answers, it is a list of at most `n`.
  unfoldable pub Bounded : {A : Type 0} → ℕ → Act W (List A) → Type 0
  Bounded {A} n m = (w : W) (xs : List A) → (m w).0 ≡ ok xs → length xs ≤ n

  continue-Bounded :
      {A B : Type 0} (n : ℕ) (p : ApiResult A × W) (f : A → Act W (List B)) (xs : List B)
      → ((a : A) → Bounded n (f a))
      → (continue p f).0 ≡ ok xs
      → length xs ≤ n
  unfolding Bounded
  continue-Bounded n (ok a, w) f xs k h = k a w xs h
  continue-Bounded n (err e, w) f xs k h = absurd (ground arith)

  bind-Bounded :
      {A B : Type 0} (n : ℕ) (m : Act W A) (f : A → Act W (List B))
      → ((a : A) → Bounded n (f a))
      → Bounded n (m >>= f)
  unfolding Bounded ◌>>=◌
  bind-Bounded n m f k w xs h = continue-Bounded n (m w) f xs k h

  then-Bounded :
      {B : Type 0} (n : ℕ) (m : Act W (Unit {0})) (k : Act W (List B))
      → Bounded n k
      → Bounded n (m >> k)
  unfolding Bounded ◌>>◌
  then-Bounded n m k b w xs h = continue-Bounded n (m w) (λ done. k) xs (λ done. b) h

  cons-Bounded :
      {A : Type 0} (n : ℕ) (x : A) (m : Act W (List A))
      → Bounded n m
      → Bounded (suc n) (m >>= λ rest. lift (ok (x ∷ rest)))
  unfolding Bounded ◌>>=◌ lift
  cons-Bounded n x m b w xs h = elim (Result-cases (m w).0) [
    | inl (rest, e) ↦
        let shorter = b w rest e in let same : (ok (x ∷ rest)) ≡ ok xs = rw e at h in ground arith
    | inr (e, p) ↦ absurd (cc (rw p at h))
  ]

module _ (host : Processes) where
  remote_infos-Bounded :
      (root : PathBuf) (names : List Str) → Bounded (length names) (remote_infos host root names)
  unfolding remote_infos Bounded lift
  remote_infos-Bounded root [] = λ w xs h. ground arith
  remote_infos-Bounded root (name ∷ names) = bind-Bounded _ _ _ (λ fetch.
      bind-Bounded _ _ _ (λ push.
        cons-Bounded (length names) _ (remote_infos host root names)
          (remote_infos-Bounded root names)))

  -- However many remotes and stashes git lists, and whatever else it answers, `git_remotes` returns at
  -- most 128 entries and `git_stashes` at most 200.
  pub answers-Bounded :
      (config : Config) (request : GitExtraRequest)
      → Bounded 128 (git_remotes host config request)
        × Bounded 200 (git_stashes host config request)
  unfolding git_remotes git_stashes Bounded lift
  answers-Bounded config request = (
    bind-Bounded _ _ _ (λ root. then-Bounded _ _ _ (
        bind-Bounded _ _ _ (λ names w xs h.
          let rows = take 128 (non_blank (lines names)) in
          let short = remote_infos-Bounded root rows w xs h in
          let cut = length-take_le 128 (non_blank (lines names)) in omega arith))),
    bind-Bounded _ _ _ (λ root. then-Bounded _ _ _ (
        bind-Bounded _ _ _ (λ output w xs h.
          let short = length-stash_entries 0 (take 200 (lines output)) in
          let cut = length-take_le 200 (lines output) in
          let same : ok (stash_entries 0 (take 200 (lines output))) ≡ ok xs = h in ground arith))),
  )
