-- ===== src/RolePolicy/Routes.antt =====
-- `route_matches` of src/role_policy.rs against the relation that a route table means.
use tux_bridge.Prelude.{
  ◌≡◌, ◌≢◌, ◌↔◌, refl, sym, ap, subst, ◌∙◌, Str, Bool, true, false, ◌&&◌, List, [], ◌∷◌, ◌++◌,
  append_assoc, append-nil, length, ◌==◌, eq_str_iff, All, arith, trim_matches, split_at, split,
  Bool-cases, inl, inr,
}
use tux_bridge.RolePolicy.{is_parameter, segment_matches, zip_all, segments, route_matches}

-- One segment of a template against one of a path.
pub data Fits : Str → Str → Type 0 where
  literal : {e f : Str} → is_parameter e ≡ false → e ≡ f → Fits e f
  parameter : {e f : Str} → is_parameter e ≡ true → f ≢ [] → Fits e f

-- Segment by segment, with none left over on either side.
pub data Matches : List Str → List Str → Type 0 where
  done : Matches [] []
  more : {e f : Str} {es fs : List Str} → Fits e f → Matches es fs → Matches (e ∷ es) (f ∷ fs)

Fits-sound : (e f : Str) → segment_matches e f ≡ true → Fits e f
unfolding segment_matches
Fits-sound e f h = elim (Bool-cases (is_parameter e)) [
  | inl is ↦ parameter is (ground arith)
  | inr not_one ↦ literal not_one (ground (arith, eq_str_iff e f))
]

Fits-complete : {e f : Str} → Fits e f → segment_matches e f ≡ true
unfolding segment_matches
Fits-complete (literal {e} {f} p same) = ground (arith, eq_str_iff e f)
Fits-complete (parameter p ne) = ground arith

both : List Str → List Str → Bool
both es fs = (length es == length fs) && zip_all es fs

Matches-sound : (es fs : List Str) → both es fs ≡ true → Matches es fs
unfolding both zip_all
Matches-sound [] [] h = done
Matches-sound [] (f ∷ fs) h = absurd (ground arith)
Matches-sound (e ∷ es) [] h = absurd (ground arith)
Matches-sound (e ∷ es) (f ∷ fs) h =
    more (Fits-sound e f (ground arith)) (Matches-sound es fs (ground arith))

Matches-complete : {es fs : List Str} → Matches es fs → both es fs ≡ true
unfolding both zip_all
Matches-complete done = refl
Matches-complete (more fit rest) = ground (arith, Fits-complete fit, Matches-complete rest)

-- A template matches a path exactly when their segments match one to one.
pub route_matches-segments :
    (template actual : Str)
    → (route_matches template actual ≡ true) ↔ Matches (segments template) (segments actual)
unfolding route_matches both
route_matches-segments template actual =
    (Matches-sound (segments template) (segments actual), Matches-complete)

-- The segments are what the trimmed path spells between its slashes.
pub join : List Str → Str
join [] = []
join (s ∷ []) = s
join (s ∷ t ∷ rest) = s ++ b'/' ∷ join (t ∷ rest)

join-cons : (s : Str) (rest : List Str) → rest ≢ [] → join (s ∷ rest) ≡ s ++ b'/' ∷ join rest
unfolding join
join-cons s [] ne = absurd (ne refl)
join-cons s (t ∷ rest) ne = refl

split_at-ne-nil : (cur s : Str) → split_at b'/' cur s ≢ []
unfolding split_at
split_at-ne-nil cur [] e = cc
split_at-ne-nil cur (c ∷ s) e = elim (Bool-cases (c == b'/')) [
  | inl slash ↦ cc (rw (slash, split_at) at e)
  | inr other ↦ split_at-ne-nil (cur ++ c ∷ []) s (rw (other, split_at) at e)
]

join-split_at : (cur s : Str) → join (split_at b'/' cur s) ≡ cur ++ s
unfolding split_at
join-split_at cur [] = unfold join in sym (append-nil cur)
join-split_at cur (c ∷ s) = elim (Bool-cases (c == b'/')) [
  | inl slash ↦
      let is : c ≡ b'/' = ground arith in
      rw (slash, split_at, is)
        (join-cons cur _ (split_at-ne-nil [] s) ∙ ap (λ t. cur ++ b'/' ∷ t) (join-split_at [] s))
  | inr other ↦ rw (other, split_at) (join-split_at (cur ++ c ∷ []) s ∙ append_assoc cur (c ∷ []) s)
]

-- The route matched on a template without parameters is that path alone, up to slashes at its ends.
abbrev pub HasNoParameters : Str → Type 0
HasNoParameters template = All (λ e. is_parameter e ≡ false) (segments template)

Matches-literal :
    {es fs : List Str} → All (λ e. is_parameter e ≡ false) es → Matches es fs → es ≡ fs
Matches-literal h done = refl
Matches-literal h (more (literal p same) rest) = cc (Matches-literal h.1 rest)
Matches-literal h (more (parameter p ne) rest) = cc (h.0)

Matches-self : (es : List Str) → All (λ e. is_parameter e ≡ false) es → Matches es es
Matches-self [] h = done
Matches-self (e ∷ es) h = more (literal h.0 refl) (Matches-self es h.1)

-- A template without parameters matches exactly the paths that equal it once the slashes at both
-- ends are trimmed.
pub route_matches_literal :
    (template actual : Str)
    → HasNoParameters template
    → (route_matches template actual ≡ true)
      ↔ (trim_matches (λ c. c == b'/') template ≡ trim_matches (λ c. c == b'/') actual)
unfolding segments
route_matches_literal template actual h =
    let (to, from) = route_matches-segments template actual in
    (
      λ matched.
          sym (join-split_at [] _) ∙ ap join (Matches-literal h (to matched)) ∙ join-split_at [] _,
      λ same.
          let parts : segments template ≡ segments actual = ap (split b'/') same in
          from
            (subst (λ t. Matches (segments template) t) parts (Matches-self (segments template) h)),
    )
