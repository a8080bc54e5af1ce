-- ===== src/RolePolicy/Tests.antt =====
-- Small embedded documents, and the theorems on the policy at them.
use tux_bridge.Prelude.{
  ◌≡◌, ◌↔◌, refl, Str, codes, true, false, [], ◌∷◌, any, trim_matches, ◌==◌, texts,
  to_ascii_lowercase, List,
}
use tux_bridge.Prelude.Dict.{Dict}
use tux_bridge.Error.{ok}
use tux_bridge.Json.{Json, object, string, end, field, get_field, as_object, as_str}
use tux_bridge.Config.{developer, reviewer}
use tux_bridge.Config.Validate.{same_role}
use tux_bridge.RolePolicy.{
  ProfileSpec, RouteRule, Operation, operation_index, embedded, allows, route_matches, segments,
  is_http_method, profile_role, add_role, add_operations, add_support_routes, add_profile,
  add_profiles,
}
use tux_bridge.RolePolicy.Routes.{Matches, route_matches-segments, route_matches_literal}
use tux_bridge.RolePolicy.Embedded.{granted_by, embedded-allows}

policy : Unit {0}
unfolding texts get_field as_object as_str same_role operation_index embedded allows route_matches
    segments is_http_method profile_role add_role add_operations add_support_routes add_profile
    add_profiles
policy = tt

abbrev named : Str → Json
named id = object (field (codes "operationId") (string id) end)

abbrev canonical : Json
canonical = object (
    field (codes "paths")
      (object (
        field (codes "/v1/jobs/{id}") (object (field (codes "get") (named (codes "getJob")) end)) (
          field (codes "/v1/git/push") (object (field (codes "post") (named (codes "gitPush")) end))
            end)))
      end)

abbrev profiles : Dict ProfileSpec
profiles =
    (
      codes "dev",
      record {
        operations = codes "gitPush" ∷ [];
        support_routes = record { method = codes "GET"; path = codes "/v1/jobs/{id}" } ∷ [];
      },
    )
    ∷ []

abbrev index : Dict Operation
index =
    (codes "getJob", record { method = codes "get"; path = codes "/v1/jobs/{id}" })
    ∷ (codes "gitPush", record { method = codes "post"; path = codes "/v1/git/push" })
    ∷ []

abbrev rules : List RouteRule
rules =
    record { method = codes "post"; template = codes "/v1/git/push"; roles = developer ∷ [] }
    ∷ record { method = codes "get"; template = codes "/v1/jobs/{id}"; roles = developer ∷ [] }
    ∷ []

loads : (operation_index canonical ≡ ok index) × (embedded canonical profiles ≡ ok rules)
unfolding policy
loads = (refl, refl)

decisions :
    (allows rules developer (codes "GET") (codes "/v1/jobs/job-1") ≡ true)
    × (allows rules developer (codes "GET") (codes "/v1/jobs/a/b") ≡ false)
    × (allows rules reviewer (codes "POST") (codes "/v1/git/push") ≡ false)
unfolding policy
decisions = (refl, refl, refl)

embedded-allows_example : (allows rules developer (codes "GET") (codes "/v1/jobs/job-1") ≡ true) ↔ (
    (t : Str) × (any (granted_by index developer (to_ascii_lowercase (codes "GET")) t) profiles
      ≡ true)
    × (route_matches t (codes "/v1/jobs/job-1") ≡ true))
embedded-allows_example =
    embedded-allows canonical profiles index rules developer (codes "GET") (codes "/v1/jobs/job-1")
      (λ e. cc e) loads.0 loads.1

route_matches-segments_example :
    (route_matches (codes "/v1/jobs/{id}") (codes "/v1/jobs/") ≡ true)
    ↔ Matches (segments (codes "/v1/jobs/{id}")) (segments (codes "/v1/jobs/"))
route_matches-segments_example = route_matches-segments (codes "/v1/jobs/{id}") (codes "/v1/jobs/")

route_matches_literal_example :
    (route_matches (codes "/v1/git/push") (codes "v1/git/push/") ≡ true) ↔ (
      trim_matches (λ c. c == b'/') (codes "/v1/git/push")
      ≡ trim_matches (λ c. c == b'/') (codes "v1/git/push/"))
unfolding policy
route_matches_literal_example =
    route_matches_literal (codes "/v1/git/push") (codes "v1/git/push/") (refl, (refl, (refl, tt)))
