-- ===== src/Mutation/Atomic.antt =====
-- `atomic_write` (src/mutation.rs) installs the whole content or changes nothing.
use tux_bridge.Prelude.{
  ℕ, ◌≡◌, ◌≢◌, refl, sym, ap, ◌∙◌, ◌⊎◌, inl, inr, Bytes, Bool, Option, none, some, Option-cases,
}
use tux_bridge.Error.{ApiError, ApiResult, ok, err}
use tux_bridge.Paths.{PathBuf, parent}
use tux_bridge.Host.{Host, IoError, IoResult, map_io}
use tux_bridge.Mutation.Write.{
  Plan, atomic_write, begin_temp, fill_and_persist, restore_permissions, install, or_drop,
  persist_error,
}

module _ (host : Host) (view : PathBuf → host.World → Option Bytes) where
  -- Every file but one reads as before.
  unfoldable pub Aside : PathBuf → host.World → host.World → Type 0
  Aside temp w w' = (p : PathBuf) → (p ≡ temp) ⊎ (view p w' ≡ view p w)

  unfoldable pub Same : host.World → host.World → Type 0
  Same w w' = (p : PathBuf) → view p w' ≡ view p w

  -- The documented behaviour of `tempfile` and of the calls on its file: `view p w` is the content
  -- stored under `p`. A new temporary file takes a free name; writing and its other calls touch that
  -- file only; `persist` moves it over the target or fails without effect; dropping removes it.
  pub record TempLaws : Type 0 where
    pub create_ok :
        (dir : PathBuf) (w : host.World) (temp : PathBuf)
        → (host.create_temp dir w).0 ≡ ok temp
        → (view temp w ≡ none) × Aside temp w (host.create_temp dir w).1
    pub create_err :
        (dir : PathBuf) (w : host.World) (e : IoError)
        → (host.create_temp dir w).0 ≡ err e
        → Same w (host.create_temp dir w).1
    pub write_aside :
        (temp : PathBuf) (content : Bytes) (w : host.World)
        → Aside temp w (host.write_all temp content w).1
    pub write_ok :
        (temp : PathBuf) (content : Bytes) (w : host.World)
        → (host.write_all temp content w).0 ≡ ok tt
        → view temp (host.write_all temp content w).1 ≡ some content
    pub sync_same : (temp : PathBuf) (w : host.World) → Same w (host.sync_all temp w).1
    pub permissions_same :
        (temp : PathBuf) (mode : ℕ) (w : host.World) → Same w (host.set_permissions temp mode w).1
    pub install_ok :
        (temp target : PathBuf) (no_clobber : Bool) (w : host.World)
        → (install host temp target no_clobber w).0 ≡ ok tt
        → (view target (install host temp target no_clobber w).1 ≡ view temp w)
          × ((p : PathBuf)
              → (p ≡ target)
                ⊎ (p ≡ temp) × (view p (install host temp target no_clobber w).1 ≡ none)
                ⊎ (p ≢ temp) × (view p (install host temp target no_clobber w).1 ≡ view p w))
    pub install_err :
        (temp target : PathBuf) (no_clobber : Bool) (w : host.World) (e : IoError)
        → (install host temp target no_clobber w).0 ≡ err e
        → Same w (install host temp target no_clobber w).1
    pub discard_lem :
        (temp : PathBuf) (w : host.World)
        → (view temp (host.discard temp w) ≡ none) × Aside temp w (host.discard temp w)

  -- What a caller of `atomic_write` can rely on.
  unfoldable pub IsAtomic : Plan → host.World → ApiResult (Unit {0}) × host.World → Type 0
  IsAtomic plan w (ok done, w') =
      (view plan.target w' ≡ some plan.content)
      × ((p : PathBuf) → (p ≡ plan.target) ⊎ (view p w' ≡ view p w))
  IsAtomic plan w (err e, w') = Same w w'

  module _ (laws : TempLaws) where
    Aside-trans :
        (temp : PathBuf) (u v w : host.World) → Aside temp u v → Aside temp v w → Aside temp u w
    unfolding Aside
    Aside-trans temp u v w f g p = elim (f p) [
      | inl e ↦ inl e
      | inr e ↦ elim (g p) [ inl d ↦ inl d | inr d ↦ inr (d ∙ e) ]
    ]

    Aside-Same : (temp : PathBuf) (u v w : host.World) → Aside temp u v → Same v w → Aside temp u w
    unfolding Aside Same
    Aside-Same temp u v w f g p = elim (f p) [ inl e ↦ inl e | inr e ↦ inr (g p ∙ e) ]

    -- Dropping the temporary file undoes all that was done to it.
    discard-Same :
        (temp : PathBuf) (u v : host.World)
        → view temp u ≡ none
        → Aside temp u v
        → Same u (host.discard temp v)
    unfolding Aside Same
    discard-Same temp u v fresh f p =
        let (gone, others) = laws.discard_lem temp v in
        elim (f p) [
          | inl e ↦ rw e (gone ∙ sym fresh)
          | inr e ↦ elim (others p) [ inl d ↦ rw d (gone ∙ sym fresh) | inr d ↦ d ∙ e ]
        ]

    -- One step on the temporary file, followed by the rest.
    or_drop-IsAtomic :
        (temp : PathBuf) (report : IoError → ApiError) (step : IoResult (Unit {0}) × host.World)
        (next : host.World → ApiResult (Unit {0}) × host.World) (plan : Plan) (u : host.World)
        → view temp u ≡ none
        → ((e : IoError) → step.0 ≡ err e → Aside temp u step.1)
        → (step.0 ≡ ok tt → IsAtomic plan u (next step.1))
        → IsAtomic plan u (or_drop host temp report step next)
    unfolding IsAtomic
    or_drop-IsAtomic temp report (ok tt, v) next plan u fresh aside rest = rest refl
    or_drop-IsAtomic temp report (err e, v) next plan u fresh aside rest =
        discard-Same temp u v fresh (aside e refl)

    restore-Same :
        (temp : PathBuf) (mode : Option ℕ) (w : host.World)
        → Same w (restore_permissions host temp mode w).1
    unfolding restore_permissions Same
    restore-Same temp none w = λ p. refl
    restore-Same temp (some mode) w = laws.permissions_same temp mode w

    -- After the rename only the target has changed.
    install-IsAtomic :
        (temp : PathBuf) (plan : Plan) (u w : host.World)
        → view temp u ≡ none
        → Aside temp u w
        → view temp w ≡ some plan.content
        → (install host temp plan.target plan.no_clobber w).0 ≡ ok tt
        → IsAtomic plan u (ok tt, (install host temp plan.target plan.no_clobber w).1)
    unfolding IsAtomic Aside
    install-IsAtomic temp plan u w fresh aside full worked =
        let (installed, others) = laws.install_ok temp plan.target plan.no_clobber w worked in
        (
          installed ∙ full,
          λ p. elim (others p) [
            | inl e ↦ inl e
            | inr (inl (e, gone)) ↦ inr (gone ∙ sym (rw e fresh))
            | inr (inr (differs, same)) ↦ elim (aside p) [
              | inl e ↦ absurd (differs e)
              | inr before ↦ inr (same ∙ before)
            ]
          ],
        )

    fill_and_persist-IsAtomic :
        (temp : PathBuf) (plan : Plan) (u w : host.World)
        → view temp u ≡ none
        → Aside temp u w
        → IsAtomic plan u (fill_and_persist host temp plan w)
    unfolding fill_and_persist Same
    fill_and_persist-IsAtomic temp plan u w fresh aside =
        let w1 = (host.write_all temp plan.content w).1 in
        let w2 = (host.sync_all temp w1).1 in
        let w3 = (restore_permissions host temp plan.permissions w2).1 in
        let aside1 = Aside-trans temp u w w1 aside (laws.write_aside temp plan.content w) in
        let aside2 = Aside-Same temp u w1 w2 aside1 (laws.sync_same temp w1) in
        let aside3 = Aside-Same temp u w2 w3 aside2 (restore-Same temp plan.permissions w2) in
        let renamed : host.World → ApiResult (Unit {0}) × host.World = λ v.
          or_drop host temp (persist_error plan.no_clobber)
            (install host temp plan.target plan.no_clobber v) (λ x. (ok tt, x)) in
        let allowed : host.World → ApiResult (Unit {0}) × host.World = λ v.
          or_drop host temp map_io (restore_permissions host temp plan.permissions v) renamed in
        let synced : host.World → ApiResult (Unit {0}) × host.World =
          λ v. or_drop host temp map_io (host.sync_all temp v) allowed in
        or_drop-IsAtomic temp map_io (host.write_all temp plan.content w) synced plan u fresh
          (λ e failed. aside1)
          (λ written.
            let full : view temp w3 ≡ some plan.content =
              restore-Same temp plan.permissions w2 temp
              ∙ laws.sync_same temp w1 temp
              ∙ laws.write_ok temp plan.content w written in
            or_drop-IsAtomic temp map_io (host.sync_all temp w1) allowed plan u fresh
              (λ e failed. aside2)
              (λ done.
                or_drop-IsAtomic temp map_io (restore_permissions host temp plan.permissions w2)
                  renamed plan u fresh (λ e failed. aside3)
                  (λ set.
                    or_drop-IsAtomic temp (persist_error plan.no_clobber)
                      (install host temp plan.target plan.no_clobber w3) (λ x. (ok tt, x)) plan u
                      fresh
                      (λ e failed.
                        Aside-Same temp u w3 _ aside3
                          (laws.install_err temp plan.target plan.no_clobber w3 e failed))
                      (λ worked. install-IsAtomic temp plan u w3 fresh aside3 full worked))))

    pub begin_temp-IsAtomic :
        (plan : Plan) (dir : PathBuf) (w : host.World) (made : IoResult PathBuf × host.World)
        → made ≡ host.create_temp dir w
        → IsAtomic plan w (begin_temp host plan made)
    unfolding begin_temp IsAtomic
    begin_temp-IsAtomic plan dir w (err e, v) h =
        rw (ap (λ m. m.1) h) (laws.create_err dir w e (ap (λ m. m.0) (sym h)))
    begin_temp-IsAtomic plan dir w (ok temp, v) h =
        let (fresh, aside) = laws.create_ok dir w temp (ap (λ m. m.0) (sym h)) in
        fill_and_persist-IsAtomic temp plan w v fresh (rw (ap (λ m. m.1) h) aside)

    -- By the laws of temporary files, `atomic_write` either succeeds, and then the target has the whole
    -- content and every other file is as before, or fails, and then every file is as before.
    pub atomic_write-IsAtomic :
        (plan : Plan) (w : host.World) → IsAtomic plan w (atomic_write host plan w)
    unfolding atomic_write IsAtomic Same
    atomic_write-IsAtomic plan w = elim (Option-cases (parent plan.target)) [
      | inl e ↦ rw (e, IsAtomic, atomic_write) (λ p. refl)
      | inr (dir, e) ↦
          rw (e, atomic_write) (begin_temp-IsAtomic plan dir w (host.create_temp dir w) refl)
    ]
