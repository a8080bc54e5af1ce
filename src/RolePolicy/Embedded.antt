-- ===== src/RolePolicy/Embedded.antt =====
-- What the rules that `RolePolicy::embedded` builds allow, in terms of the two documents.
use tux_bridge.Prelude.{
  ◌≡◌, ◌≢◌, ◌↔◌, Str, Bool, true, false, ◌&&◌, ◌||◌, Option, none, some, List, [], ◌∷◌, any, eq_str,
  eq_str_iff, eq_str_self, arith, to_ascii_lowercase, Bool-cases, inl, inr, Option-cases,
}
use tux_bridge.Prelude.Dict.{Dict, get}
use tux_bridge.Error.{Result, ok, err, Message, Result-cases}
use tux_bridge.Json.{Json}
use tux_bridge.Config.{AuthRole, admin, developer, reviewer, operator}
use tux_bridge.Config.Validate.{same_role}
use tux_bridge.RolePolicy.{
  SupportRoute, ProfileSpec, RouteRule, Operation, profile_role, operation_index, add_role,
  add_operations, add_support_routes, add_profile, add_profiles, embedded, route_matches, allows,
}

-- There is a rule for the role at this method and template.
rule_is : AuthRole → Str → Str → RouteRule → Bool
rule_is role method template r =
    eq_str r.method method && eq_str r.template template && any (same_role role) r.roles

has_rule : AuthRole → Str → Str → List RouteRule → Bool
unfolding rule_is
has_rule role method template rules = any (rule_is role method template) rules

-- A profile's documents give the route to its role: by an operation, or as a support route.
abbrev pub serves : Str → Str → Option Operation → Bool
serves method template none = false
serves method template (some o) = eq_str o.method method && eq_str o.path template

abbrev pub lists_route : Dict Operation → Str → Str → ProfileSpec → Bool
lists_route index method template spec =
    any (λ id. serves method template (get id index)) spec.operations
    || any
        (λ (s : SupportRoute).
          eq_str (to_ascii_lowercase s.method) method && eq_str s.path template)
        spec.support_routes

abbrev pub is_role : AuthRole → Result AuthRole Message → Bool
is_role role (err e) = false
is_role role (ok r) = same_role role r

pub granted_by : Dict Operation → AuthRole → Str → Str → Str × ProfileSpec → Bool
granted_by index role method template (profile, spec) =
    is_role role (profile_role profile) && lists_route index method template spec

same_role_iff : (r s : AuthRole) → (same_role r s ≡ true) ↔ (r ≡ s)
unfolding same_role
same_role_iff admin s = ground arith
same_role_iff developer s = ground arith
same_role_iff reviewer s = ground arith
same_role_iff operator s = ground arith

module _ (role : AuthRole) (method template : Str) where
  has_rule-add_role :
      (m t : Str) (r : AuthRole) (rules : List RouteRule)
      → has_rule role method template (add_role m t r rules) ≡ (
          (eq_str m method && eq_str t template && same_role role r)
          || has_rule role method template rules)
  unfolding has_rule add_role
  has_rule-add_role m t r [] = ground arith
  has_rule-add_role m t r (x ∷ rules) = ground (
    arith,
    eq_str_iff x.method m,
    eq_str_iff x.template t,
    eq_str_iff m method,
    eq_str_iff t template,
    eq_str_iff x.method method,
    eq_str_iff x.template template,
    same_role_iff role r,
    has_rule-add_role m t r rules,
  )

  abbrev listed : Dict Operation → List Str → Bool
  listed index ids = any (λ id. serves method template (get id index)) ids

  abbrev supported : List SupportRoute → Bool
  supported routes =
      any
        (λ (s : SupportRoute).
          eq_str (to_ascii_lowercase s.method) method && eq_str s.path template)
        routes

  add_operations-has_rule :
      (profile : Str) (r : AuthRole) (index : Dict Operation) (seen ids : List Str)
      (rules out : List RouteRule)
      → add_operations profile r index seen ids rules ≡ ok out
      → has_rule role method template out
        ≡ ((same_role role r && listed index ids) || has_rule role method template rules)
  unfolding add_operations
  add_operations-has_rule profile r index seen [] rules out h = ground arith
  add_operations-has_rule profile r index seen (id ∷ ids) rules out h =
      elim (Option-cases (get id index)) [
        | inl missing ↦ absurd (ground arith)
        | inr (o, found) ↦
            let rest = add_role o.method o.path r rules in
            ground (
              arith,
              add_operations-has_rule profile r index (id ∷ seen) ids rest out,
              has_rule-add_role o.method o.path r rules,
            )
      ]

  add_support_routes-has_rule :
      (profile : Str) (r : AuthRole) (routes : List SupportRoute) (rules out : List RouteRule)
      → add_support_routes profile r routes rules ≡ ok out
      → has_rule role method template out
        ≡ ((same_role role r && supported routes) || has_rule role method template rules)
  unfolding add_support_routes
  add_support_routes-has_rule profile r [] rules out h = ground arith
  add_support_routes-has_rule profile r (s ∷ routes) rules out h =
      let lower = to_ascii_lowercase s.method in
      ground (
        arith,
        add_support_routes-has_rule profile r routes (add_role lower s.path r rules) out,
        has_rule-add_role lower s.path r rules,
      )

  add_profile-has_rule :
      (index : Dict Operation) (profile : Str) (spec : ProfileSpec) (rules out : List RouteRule)
      → add_profile index profile spec rules ≡ ok out
      → has_rule role method template out ≡ (
          granted_by index role method template (profile, spec)
          || has_rule role method template rules)
  unfolding add_profile granted_by
  add_profile-has_rule index profile spec rules out h = elim (Result-cases (profile_role profile)) [
    | inr (e, failed) ↦ absurd (ground arith)
    | inl (r, named) ↦
        elim (Result-cases (add_operations profile r index [] spec.operations rules)) [
          | inr (e, failed) ↦ absurd (ground arith)
          | inl (mid, added) ↦ ground (
            arith,
            add_operations-has_rule profile r index [] spec.operations rules mid,
            add_support_routes-has_rule profile r spec.support_routes mid out,
          )
        ]
  ]

  add_profiles-has_rule :
      (index : Dict Operation) (profiles : Dict ProfileSpec) (rules out : List RouteRule)
      → add_profiles index profiles rules ≡ ok out
      → has_rule role method template out ≡ (
          any (granted_by index role method template) profiles
          || has_rule role method template rules)
  unfolding add_profiles
  add_profiles-has_rule index [] rules out h = ground arith
  add_profiles-has_rule index ((profile, spec) ∷ rest) rules out h =
      elim (Result-cases (add_profile index profile spec rules)) [
        | inr (e, failed) ↦ absurd (ground arith)
        | inl (mid, added) ↦ ground (
          arith,
          add_profile-has_rule index profile spec rules mid,
          add_profiles-has_rule index rest mid out,
        )
      ]

-- A rule's own template, if it lets the request through.
allowing_template :
    (role : AuthRole) (method path : Str) (rules : List RouteRule)
    → any
        (λ rule.
          eq_str rule.method method
          && any (same_role role) rule.roles
          && route_matches rule.template path)
        rules
      ≡ true
    → (t : Str) × (has_rule role method t rules ≡ true) × (route_matches t path ≡ true)
unfolding has_rule
allowing_template role method path [] h = absurd (ground arith)
allowing_template role method path (r ∷ rules) h =
    elim (Bool-cases
      (eq_str r.method method && any (same_role role) r.roles && route_matches r.template path)) [
        | inl this ↦ (r.template, ground (arith, eq_str_self r.template), ground arith)
        | inr other ↦
            let (t, found, matched) = allowing_template role method path rules (ground arith) in
            (t, ground arith, matched)
      ]

template_allowed :
    (role : AuthRole) (method path t : Str) (rules : List RouteRule)
    → has_rule role method t rules ≡ true
    → route_matches t path ≡ true
    → any
        (λ rule.
          eq_str rule.method method
          && any (same_role role) rule.roles
          && route_matches rule.template path)
        rules
      ≡ true
unfolding has_rule
template_allowed role method path t [] h m = absurd (ground arith)
template_allowed role method path t (r ∷ rules) h m =
    ground (arith, eq_str_iff r.template t, template_allowed role method path t rules)

-- Once the embedded documents load, a role other than admin may call a method on a path exactly
-- when some profile of that role lists, as an operation or as a support route, a template with that
-- method which matches the path.
pub embedded-allows :
    (canonical : Json) (profiles : Dict ProfileSpec) (index : Dict Operation)
    (rules : List RouteRule) (role : AuthRole) (method path : Str)
    → role ≢ admin
    → operation_index canonical ≡ ok index
    → embedded canonical profiles ≡ ok rules
    → (allows rules role method path ≡ true) ↔ (
        (t : Str) × (any (granted_by index role (to_ascii_lowercase method) t) profiles ≡ true)
        × (route_matches t path ≡ true))
unfolding embedded allows
embedded-allows canonical profiles index rules role method path other indexed built =
    let lower = to_ascii_lowercase method in
    let added : add_profiles index profiles [] ≡ ok rules = rw indexed at built in
    let table = λ (t : Str). add_profiles-has_rule role lower t index profiles [] rules added in
    (
      λ allowed.
          let (t, found, matched) =
            allowing_template role lower path rules (ground (arith, same_role_iff role admin)) in
          (t, unfold has_rule in ground (arith, table t), matched),
      λ (t, granted, matched).
          let found : has_rule role lower t rules ≡ true = ground (arith, table t) in
          ground (arith, template_allowed role lower path t rules found matched),
    )
