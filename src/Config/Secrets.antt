-- ===== src/Config/Secrets.antt =====
-- The keys that `auth_principals` of src/config.rs loads.
use tux_bridge.Prelude.{
  ◌≤◌, ◌≡◌, ◌≢◌, refl, Str, false, codes, List, [], ◌∷◌, any, len, trim, eq_str_iff, is_control,
  All, arith, inl, inr,
}
use tux_bridge.Prelude.Dict.{Dict}
use tux_bridge.Error.{ok, Result-cases}
use tux_bridge.Config.{admin, PrincipalConfig, LoadedPrincipal, Config}
use tux_bridge.Config.Validate.{
  Environment, read_secret, load_principals, check_later, check_distinct, auth_principals,
}

-- What an accepted key is like.
pub record IsStrong (key : Str) : Type 0 where
  pub long : 32 ≤ len key
  pub trimmed : trim key ≡ key
  pub printable : any is_control key ≡ false

abbrev pub AreDistinct : List LoadedPrincipal → Type 0
AreDistinct [] = Unit
AreDistinct (p ∷ ps) = All (λ q. p.key ≢ q.key) ps × AreDistinct ps

read_secret_ok : (env : Environment) (name key : Str) → read_secret env name ≡ ok key → IsStrong key
unfolding read_secret
read_secret_ok env name key h = record {
  long = ground arith;
  trimmed = ground (arith, eq_str_iff (trim key) key);
  printable = ground arith;
}

load_principals_ok :
    (env : Environment) (ps : Dict PrincipalConfig) (loaded : List LoadedPrincipal)
    → load_principals env ps ≡ ok loaded
    → All (λ p. IsStrong p.key) loaded
unfolding load_principals
load_principals_ok env [] loaded h = let e : [] ≡ loaded = cc in rw (← e) tt
load_principals_ok env ((name, p) ∷ rest) loaded h =
    elim (Result-cases (read_secret env p.api_key_env)) [
      | inr (e, failed) ↦ cc (rw failed at h)
      | inl (key, read) ↦ elim (Result-cases (load_principals env rest)) [
        | inr (e, failed) ↦ cc (rw (read, failed) at h)
        | inl (others, more) ↦
            let e : record { name = name; key = key; roles = p.roles } ∷ others ≡ loaded =
              cc (rw (read, more) at h) in
            rw (← e)
              (read_secret_ok env p.api_key_env key read, load_principals_ok env rest others more)
      ]
    ]

check_later_ok :
    (p : LoadedPrincipal) (qs : List LoadedPrincipal)
    → check_later p qs ≡ ok tt
    → All (λ q. p.key ≢ q.key) qs
unfolding check_later
check_later_ok p [] h = tt
check_later_ok p (q ∷ qs) h =
    (ground (arith, eq_str_iff p.key q.key), check_later_ok p qs (ground arith))

check_distinct_ok : (ps : List LoadedPrincipal) → check_distinct ps ≡ ok tt → AreDistinct ps
unfolding check_distinct
check_distinct_ok [] h = tt
check_distinct_ok (p ∷ ps) h =
    (check_later_ok p ps (ground arith), check_distinct_ok ps (ground arith))

abbrev pub admin_name : Str
admin_name = codes "admin"

-- When the principals load, the first is the admin with the admin role alone, every key has at
-- least 32 bytes of UTF-8, which may be fewer characters, with no surrounding white space and no
-- control character, and no two principals share a key.
pub auth_principals_ok :
    (env : Environment) (c : Config) (loaded : List LoadedPrincipal)
    → auth_principals env c ≡ ok loaded
    → ((others : List LoadedPrincipal) × (key : Str) × (loaded
          ≡ record { name = admin_name; key = key; roles = admin ∷ [] } ∷ others))
      × All (λ p. IsStrong p.key) loaded
      × AreDistinct loaded
unfolding auth_principals
auth_principals_ok env c loaded h = elim (Result-cases (read_secret env c.auth.api_key_env)) [
  | inr (e, failed) ↦ cc (rw failed at h)
  | inl (key, read) ↦ elim (Result-cases (load_principals env c.auth.principals)) [
    | inr (e, failed) ↦ cc (rw (read, failed) at h)
    | inl (others, more) ↦
        let found : List LoadedPrincipal =
          record { name = admin_name; key = key; roles = admin ∷ [] } ∷ others in
        elim (Result-cases (check_distinct found)) [
          | inr (e, failed) ↦ cc (rw (read, more, failed) at h)
          | inl (done, distinct) ↦
              let same : found ≡ loaded = cc (rw (read, more, distinct) at h) in
              let strong = load_principals_ok env c.auth.principals others more in
              rw (← same) (
                (others, key, refl),
                (read_secret_ok env c.auth.api_key_env key read, strong),
                check_distinct_ok found distinct,
              )
        ]
  ]
]
