-- ===== src/Process/Keeps.antt =====
-- An invariant that every step of a chain keeps, the whole chain keeps.
use tux_bridge.Prelude.{inl, inr}
use tux_bridge.Error.{ApiError, ApiResult, Result-cases, ok, err}
use tux_bridge.Process.{Act, continue, ◌>>=◌, ◌>>◌, lift, or_fail}

module _ {W : Type 0} (Inv : W → Type 0) where
  unfoldable pub Keeps : {A : Type 0} → Act W A → Type 0
  Keeps m = (w : W) → Inv w → Inv (m w).1

  continue-Keeps :
      {A B : Type 0} (p : ApiResult A × W) (f : A → Act W B)
      → Inv p.1
      → ((a : A) → Keeps (f a))
      → Inv (continue p f).1
  unfolding Keeps
  continue-Keeps (ok a, w) f h k = k a w h
  continue-Keeps (err e, w) f h k = h

  pub bind-Keeps :
      {A B : Type 0} (m : Act W A) (f : A → Act W B)
      → Keeps m
      → ((a : A) → Keeps (f a))
      → Keeps (m >>= f)
  unfolding Keeps ◌>>=◌
  bind-Keeps m f h k w i = continue-Keeps (m w) f (h w i) k

  pub then-Keeps :
      {B : Type 0} (m : Act W (Unit {0})) (k : Act W B) → Keeps m → Keeps k → Keeps (m >> k)
  unfolding Keeps ◌>>◌
  then-Keeps m k h j w i = continue-Keeps (m w) (λ done. k) (h w i) (λ done. j)

  pub lift-Keeps : {A : Type 0} (r : ApiResult A) → Keeps (lift r)
  unfolding Keeps lift
  lift-Keeps r w i = i

  pub or_fail-Keeps : {A : Type 0} (e : ApiError) (m : Act W A) → Keeps m → Keeps (or_fail e m)
  unfolding Keeps or_fail
  or_fail-Keeps e m h w i = elim (Result-cases (m w).0) [
    | inl (a, p) ↦ rw (p, or_fail) (h w i)
    | inr (x, p) ↦ rw (p, or_fail) (h w i)
  ]
