-- ===== src/Sessions/Writes.antt =====
-- The writes of `rollback` (src/sessions.rs): one file after the other, up to the first error.
use tux_bridge.Prelude.{
  ◌≡◌, refl, inl, inr, Str, Bytes, Option, some, false, List, [], ◌∷◌, Option-cases,
}
use tux_bridge.Error.{ApiError, ApiResult, ok, err, Result-cases}
use tux_bridge.Paths.{PathBuf, parent}
use tux_bridge.Host.{Host}
use tux_bridge.Mutation.Write.{Plan}
use tux_bridge.Mutation.Atomic.{Aside, Same, TempLaws, IsAtomic, begin_temp-IsAtomic}
use tux_bridge.Sessions.Files.{Restore, restore_all, atomic_write}

-- What the shared steps on a temporary file get.
abbrev plan_of : Restore → Plan
plan_of r = record {
  root = [];
  target = r.target;
  content = r.before;
  permissions = some r.permissions;
  no_clobber = false;
}

module _ (host : Host) (view : PathBuf → host.World → Option Bytes) where
  -- The writes of a list, from one world to another: all files were written, and their paths are
  -- reported; or a write failed with an error, and the rest was left alone. A file that was written
  -- has the kept content, and no other file changed with it; a write that failed changed no file.
  pub data Writes : List Restore → host.World → ApiResult (List Str) → host.World → Type 0 where
    all_written : {w : host.World} → Writes [] w (ok []) w
    write_failed :
        {r : Restore} {rest : List Restore} {w w' : host.World} {e : ApiError}
        → atomic_write host r.target r.before r.permissions w ≡ (err e, w')
        → Same host view w w'
        → Writes (r ∷ rest) w (err e) w'
    later_failed :
        {r : Restore} {rest : List Restore} {w w' w'' : host.World} {e : ApiError}
        → atomic_write host r.target r.before r.permissions w ≡ (ok tt, w')
        → view r.target w' ≡ some r.before
        → Aside host view r.target w w'
        → Writes rest w' (err e) w''
        → Writes (r ∷ rest) w (err e) w''
    one_written :
        {r : Restore} {rest : List Restore} {w w' w'' : host.World} {names : List Str}
        → atomic_write host r.target r.before r.permissions w ≡ (ok tt, w')
        → view r.target w' ≡ some r.before
        → Aside host view r.target w w'
        → Writes rest w' (ok names) w''
        → Writes (r ∷ rest) w (ok (r.path ∷ names)) w''

  module _ (laws : TempLaws host view) where
    atomic_write-IsAtomic :
        (r : Restore) (w : host.World)
        → IsAtomic host view (plan_of r) w (atomic_write host r.target r.before r.permissions w)
    unfolding atomic_write IsAtomic Same
    atomic_write-IsAtomic r w = elim (Option-cases (parent r.target)) [
      | inl e ↦ rw (e, IsAtomic, atomic_write) (λ p. refl)
      | inr (dir, e) ↦
          rw (e, atomic_write)
            (begin_temp-IsAtomic host view laws (plan_of r) dir w (host.create_temp dir w) refl)
    ]

    pub restore_all-Writes :
        (prepared : List Restore) (w : host.World)
        → Writes prepared w (restore_all host prepared w).0 (restore_all host prepared w).1
    unfolding restore_all IsAtomic Aside
    restore_all-Writes [] w = all_written
    restore_all-Writes (r ∷ rest) w =
        go (atomic_write host r.target r.before r.permissions w) refl (atomic_write-IsAtomic r w)
          (λ v. restore_all-Writes rest v)
      where
        go :
            (written : ApiResult (Unit {0}) × host.World)
            → atomic_write host r.target r.before r.permissions w ≡ written
            → IsAtomic host view (plan_of r) w written
            → ((v : host.World)
                → Writes rest v (restore_all host rest v).0 (restore_all host rest v).1)
            → Writes
                (r ∷ rest)
                w
                (restore_all host (r ∷ rest) w).0
                (restore_all host (r ∷ rest) w).1
        go (err e, w') k same rest_writes = rw (k, restore_all, k) (write_failed k same)
        go (ok done, w') k (full, aside) rest_writes =
            let later = rest_writes w' in
            elim (Result-cases (restore_all host rest w').0) [
              | inl (names, h) ↦
                  rw (k, restore_all, k, h) (one_written k full aside (rw h at later))
              | inr (e, h) ↦ rw (k, restore_all, k, h) (later_failed k full aside (rw h at later))
            ]
