-- ===== src/Host/Memory/Laws.antt =====
-- The test host keeps the laws of temporary files.
use tux_bridge.Prelude.{
  ◌≡◌, ◌≢◌, ◌⊎◌, inl, inr, refl, ap, sym, ◌∙◌, Bytes, true, false, Option, none, [], ◌∷◌, eq_str→eq,
  eq_str_self, arith, Bool-cases,
}
use tux_bridge.Paths.{Component, root_dir, cur_dir, parent_dir, normal, PathBuf, same_component}
use tux_bridge.Host.Memory.{same_path, Files, put, rename}

same_component→eq : (c d : Component) → same_component c d ≡ true → c ≡ d
unfolding same_component
same_component→eq root_dir root_dir h = refl
same_component→eq cur_dir cur_dir h = refl
same_component→eq parent_dir parent_dir h = refl
same_component→eq (normal s) (normal t) h = ap normal (eq_str→eq s t h)
same_component→eq c d h = cc

same_path→eq : (p q : PathBuf) → same_path p q ≡ true → p ≡ q
unfolding same_path
same_path→eq [] [] h = refl
same_path→eq [] (d ∷ q) h = cc
same_path→eq (c ∷ p) [] h = cc
same_path→eq (c ∷ p) (d ∷ q) h = ground (arith, same_component→eq c d, same_path→eq p q)

same_path_self : (p : PathBuf) → same_path p p ≡ true
unfolding same_path same_component
same_path_self [] = refl
same_path_self (root_dir ∷ p) = same_path_self p
same_path_self (cur_dir ∷ p) = same_path_self p
same_path_self (parent_dir ∷ p) = same_path_self p
same_path_self (normal s ∷ p) = ground (arith, eq_str_self s, same_path_self p)

same_path-cases :
    (p q : PathBuf) → ((p ≡ q) × (same_path p q ≡ true)) ⊎ ((p ≢ q) × (same_path p q ≡ false))
same_path-cases p q = elim (Bool-cases (same_path p q)) [
  | inl t ↦ inl (same_path→eq p q t, t)
  | inr f ↦ inr (λ e. differ p q f e, f)
]
  where
    differ : (p q : PathBuf) → same_path p q ≡ false → p ≢ q
    differ p q f e = let t = same_path_self p in cc

pub put_same : (p : PathBuf) (entry : Option Bytes) (w : Files) → put p entry w p ≡ entry
unfolding put
put_same p entry w = rw (same_path_self p) refl

pub put_aside :
    (p : PathBuf) (entry : Option Bytes) (w : Files) (q : PathBuf)
    → (q ≡ p) ⊎ (put p entry w q ≡ w q)
unfolding put
put_aside p entry w q = elim (same_path-cases p q) [
  | inl (e, t) ↦ inl (sym e)
  | inr (d, f) ↦ inr (rw f refl)
]

put_other :
    (p : PathBuf) (entry : Option Bytes) (w : Files) (q : PathBuf) → q ≢ p → put p entry w q ≡ w q
put_other p entry w q h = elim (put_aside p entry w q) [ inl e ↦ absurd (h e) | inr e ↦ e ]

unfoldable pub Renamed : PathBuf → PathBuf → Files → Files → Type 0
Renamed temp target w w' =
    (w' target ≡ w temp)
    × ((p : PathBuf) → (p ≡ target) ⊎ (p ≡ temp) × (w' p ≡ none) ⊎ (p ≢ temp) × (w' p ≡ w p))

pub rename-Renamed :
    (temp target : PathBuf) (w : Files) → Renamed temp target w (rename temp target w).1
unfolding rename Renamed
rename-Renamed temp target w = (
  put_same target (w temp) (put temp none w),
  λ p. elim (put_aside target (w temp) (put temp none w) p) [
    | inl e ↦ inl e
    | inr same ↦ elim (same_path-cases p temp) [
      | inl (e, t) ↦ inr (inl (e, same ∙ rw e (put_same temp none w)))
      | inr (d, f) ↦ inr (inr (d, same ∙ put_other temp none w p d))
    ]
  ],
)
