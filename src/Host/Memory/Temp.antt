-- ===== src/Host/Memory/Temp.antt =====
-- The host of Host/Memory keeps the laws of temporary files.
use tux_bridge.Prelude.{
  ◌≡◌, refl, codes, Bool, Bytes, true, false, Option, Option-cases, inl, inr, none, some, [], ◌∷◌,
  ◌++◌, arith,
}
use tux_bridge.Error.{ok, err}
use tux_bridge.Paths.{PathBuf, normal}
use tux_bridge.Host.{IoError}
use tux_bridge.Host.Memory.{Files, memory, new_temp, rename, rename_new}
use tux_bridge.Host.Memory.Laws.{put_same, put_aside, Renamed, rename-Renamed}
use tux_bridge.Mutation.Atomic.{Aside, Same, TempLaws}
use tux_bridge.Mutation.Write.{install}

-- The content stored under a path.
unfoldable pub view : PathBuf → Files → Option Bytes
view p w = w p

new_temp_ok :
    (dir : PathBuf) (w : Files) (temp : PathBuf)
    → (new_temp dir w).0 ≡ ok temp
    → (w temp ≡ none) × Aside memory view temp w (new_temp dir w).1
unfolding new_temp Aside view
new_temp_ok dir w temp h = elim (Option-cases (w (dir ++ normal (codes ".tmp") ∷ []))) [
  | inl free ↦
      let named : dir ++ normal (codes ".tmp") ∷ [] ≡ temp = ground arith in
      (rw named at free, λ p. rw (free, new_temp) (rw named (put_aside temp (some []) w p)))
  | inr (bytes, taken) ↦ absurd (ground arith)
]

new_temp_err :
    (dir : PathBuf) (w : Files) (e : IoError)
    → (new_temp dir w).0 ≡ err e
    → Same memory view w (new_temp dir w).1
unfolding new_temp Same view
new_temp_err dir w e h = elim (Option-cases (w (dir ++ normal (codes ".tmp") ∷ []))) [
  | inl free ↦ absurd (ground arith)
  | inr (bytes, taken) ↦ λ p. rw (taken, new_temp) refl
]

install_ok :
    (temp target : PathBuf) (no_clobber : Bool) (w : Files)
    → (install memory temp target no_clobber w).0 ≡ ok tt
    → Renamed temp target w (install memory temp target no_clobber w).1
unfolding install rename_new
install_ok temp target true w h = elim (Option-cases (w target)) [
  | inl free ↦ rw (free, rename_new) (rename-Renamed temp target w)
  | inr (bytes, taken) ↦ absurd (ground arith)
]
install_ok temp target false w h = rename-Renamed temp target w

install_err :
    (temp target : PathBuf) (no_clobber : Bool) (w : Files) (e : IoError)
    → (install memory temp target no_clobber w).0 ≡ err e
    → Same memory view w (install memory temp target no_clobber w).1
unfolding install rename rename_new Same view
install_err temp target true w e h = elim (Option-cases (w target)) [
  | inl free ↦ absurd (ground arith)
  | inr (bytes, taken) ↦ λ p. rw (taken, rename_new) refl
]
install_err temp target false w e h = cc

pub laws : TempLaws memory view
unfolding Aside Same view Renamed
laws = record {
  create_ok = new_temp_ok;
  create_err = new_temp_err;
  write_aside = λ temp content w. put_aside temp (some content) w;
  write_ok = λ temp content w h. put_same temp (some content) w;
  sync_same = λ temp w p. refl;
  permissions_same = λ temp mode w p. refl;
  install_ok = install_ok;
  install_err = install_err;
  discard_lem = λ temp w. (put_same temp none w, put_aside temp none w);
}
