-- ===== src/RolePolicy.antt =====
-- src/role_policy.rs: which role may call which route. The two embedded JSON documents are
-- arguments; serde's parse of them is not modelled.
pub mod Routes
pub mod Embedded
mod Tests
use tux_bridge.Prelude.{
  ℕ, String, Str, codes, Bool, true, false, not, ◌&&◌, ◌||◌, Option, none, some, List, [], ◌∷◌, any,
  all, is_empty, length, ltb, ◌==◌, if◌then◌else◌, eq_str, starts_with, ends_with, trim_matches,
  split, to_ascii_lowercase, is_whitespace,
}
use tux_bridge.Prelude.Dict.{Dict, get, insert}
use tux_bridge.Error.{
  Result, ok, err, refuse_if, ok_or, ◌>>◌, ◌>>=◌, Message, says, text, quoted, number,
}
use tux_bridge.Json.{Json, Fields, end, field, get_field, as_object, as_str}
use tux_bridge.Config.{AuthRole, admin, developer, reviewer, operator}
use tux_bridge.Config.Validate.{same_role}

abbrev pub max_profile_operations : ℕ
max_profile_operations = 30

pub record SupportRoute : Type 0 where
  pub method : Str
  pub path : Str

pub record ProfileSpec : Type 0 where
  pub operations : List Str
  pub support_routes : List SupportRoute

pub record RouteRule : Type 0 where
  pub method : Str
  pub template : Str
  pub roles : List AuthRole

-- Where an operation is served: its method and path.
pub record Operation : Type 0 where
  pub method : Str
  pub path : Str

unfoldable pub is_http_method : Str → Bool
is_http_method method =
    any (λ m. eq_str method (codes m))
      ("get" ∷ "put" ∷ "post" ∷ "delete" ∷ "patch" ∷ "head" ∷ "options" ∷ "trace" ∷ [])

unfoldable pub profile_role : Str → Result AuthRole Message
profile_role profile =
    if eq_str profile (codes "dev")
    then ok developer
    else if eq_str profile (codes "review")
    then ok reviewer
    else if eq_str profile (codes "ops")
    then ok operator
    else err (text "unknown OpenAPI profile " ∷ quoted profile ∷ [])

abbrev operation_id : Json → Option Str
operation_id operation = elim (get_field (codes "operationId") operation) [
  | none ↦ none
  | some v ↦ as_str v
]

-- The inner loop of `operation_index`, over the methods of one path.
unfoldable pub index_methods : Str → Fields → Dict Operation → Result (Dict Operation) Message
index_methods path end index = ok index
index_methods path (field method operation rest) index = elim (is_http_method method) [
  | false ↦ index_methods path rest index
  | true ↦ elim (operation_id operation) [
    | none ↦ index_methods path rest index
    | some id ↦ elim (get id index) [
      | some old ↦ err (text "canonical OpenAPI duplicates operationId " ∷ quoted id ∷ [])
      | none ↦
          index_methods path rest
            (insert id (record { method = to_ascii_lowercase method; path = path }) index)
    ]
  ]
]

unfoldable pub index_paths : Fields → Dict Operation → Result (Dict Operation) Message
unfolding index_methods
index_paths end index = ok index
index_paths (field path item rest) index = elim (as_object item) [
  | none ↦ index_paths rest index
  | some methods ↦ index_methods path methods index >>= index_paths rest
]

unfoldable pub operation_index : Json → Result (Dict Operation) Message
unfolding index_paths
operation_index canonical =
    let paths = elim (get_field (codes "paths") canonical) as (λ _. Option Fields) [
      | none ↦ none
      | some v ↦ as_object v
    ] in
    do fields ← ok_or paths (says "canonical OpenAPI has no paths object"); index_paths fields []

-- `route_roles.entry((method, path)).or_default().insert(role)`. The order of the rules is not
-- observable: `allows` asks whether any of them holds.
unfoldable pub add_role : Str → Str → AuthRole → List RouteRule → List RouteRule
add_role method template role [] =
    record { method = method; template = template; roles = role ∷ [] } ∷ []
add_role method template role (r ∷ rules) =
    if eq_str r.method method && eq_str r.template template
    then record r { roles = if any (same_role role) r.roles then r.roles else role ∷ r.roles }
      ∷ rules
    else r ∷ add_role method template role rules

unfoldable pub add_operations :
    Str
    → AuthRole
    → Dict Operation
    → List Str
    → List Str
    → List RouteRule
    → Result (List RouteRule) Message
add_operations profile role index seen [] rules = ok rules
add_operations profile role index seen (id ∷ ids) rules = do
  refuse_if (any (eq_str id) seen)
      (text "profile " ∷ quoted profile ∷ text " duplicates operationId " ∷ quoted id ∷ [])
  operation ←
      ok_or (get id index) (
        text "profile " ∷ quoted profile ∷ text " references missing operationId " ∷ quoted id ∷ [])
  add_operations profile role index (id ∷ seen) ids
      (add_role operation.method operation.path role rules)

unfoldable pub add_support_routes :
    Str → AuthRole → List SupportRoute → List RouteRule → Result (List RouteRule) Message
add_support_routes profile role [] rules = ok rules
add_support_routes profile role (support ∷ rest) rules = do
  let method = to_ascii_lowercase support.method
  refuse_if (not (is_http_method method)) (
      text "profile "
      ∷ quoted profile
      ∷ text " has invalid support method "
      ∷ quoted support.method
      ∷ [])
  refuse_if (not (starts_with (codes "/v1/") support.path) || any is_whitespace support.path) (
      text "profile "
      ∷ quoted profile
      ∷ text " has invalid support path "
      ∷ quoted support.path
      ∷ [])
  add_support_routes profile role rest (add_role method support.path role rules)

unfoldable pub add_profile :
    Dict Operation → Str → ProfileSpec → List RouteRule → Result (List RouteRule) Message
add_profile index profile spec rules = do
  role ← profile_role profile
  refuse_if (is_empty spec.operations || ltb max_profile_operations (length spec.operations)) (
      text "profile "
      ∷ quoted profile
      ∷ text " must contain 1..=30 GPT operations, found "
      ∷ number (length spec.operations)
      ∷ [])
  with_operations ← add_operations profile role index [] spec.operations rules
  add_support_routes profile role spec.support_routes with_operations

unfoldable pub add_profiles :
    Dict Operation → Dict ProfileSpec → List RouteRule → Result (List RouteRule) Message
add_profiles index [] rules = ok rules
add_profiles index ((profile, spec) ∷ rest) rules = do
  more ← add_profile index profile spec rules
  add_profiles index rest more

-- `RolePolicy::embedded`, after the parse.
unfoldable pub embedded : Json → Dict ProfileSpec → Result (List RouteRule) Message
embedded canonical profiles = do index ← operation_index canonical; add_profiles index profiles []

abbrev pub is_parameter : Str → Bool
is_parameter expected = starts_with (codes "{") expected && ends_with (codes "}") expected

unfoldable pub segment_matches : Str → Str → Bool
segment_matches expected found =
    if is_parameter expected then not (is_empty found) else eq_str expected found

-- `iter().zip(…).all(…)`
unfoldable pub zip_all : List Str → List Str → Bool
unfolding segment_matches
zip_all [] found = true
zip_all (e ∷ expected) [] = true
zip_all (e ∷ expected) (f ∷ found) = segment_matches e f && zip_all expected found

-- `path.trim_matches('/').split('/')`
unfoldable pub segments : Str → List Str
segments path = split b'/' (trim_matches (λ c. c == b'/') path)

unfoldable pub route_matches : Str → Str → Bool
unfolding zip_all
route_matches template actual =
    length (segments template) == length (segments actual)
    && zip_all (segments template) (segments actual)

unfoldable pub allows : List RouteRule → AuthRole → Str → Str → Bool
allows rules role method path =
    same_role role admin
    || any
        (λ rule.
          eq_str rule.method (to_ascii_lowercase method)
          && any (same_role role) rule.roles
          && route_matches rule.template path)
        rules
