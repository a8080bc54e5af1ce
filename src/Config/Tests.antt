-- ===== src/Config/Tests.antt =====
-- The theorems on the configuration at concrete values.
use tux_bridge.Prelude.{◌≡◌, refl, Str, codes, true, false, some, [], ◌∷◌, texts, List, All, ◌++◌}
use tux_bridge.Error.{ok}
use tux_bridge.Config.{Config, default_config, admin, reviewer, LoadedPrincipal}
use tux_bridge.Config.Validate.{
  Environment, read_secret, validate, auth_principals, validate_env_name, validate_principals,
  validate_allowlist, validate_approval_paths, validate_servers, validate_limits, validate_roots,
}
use tux_bridge.Config.Secrets.{IsStrong, AreDistinct, admin_name, auth_principals_ok}

checks : Unit {0}
unfolding texts validate validate_env_name validate_principals validate_allowlist
    validate_approval_paths validate_servers validate_limits validate_roots auth_principals
checks = tt

abbrev config : Config
config = record default_config {
  auth = record {
    api_key_env = codes "ADMIN";
    principals = (codes "eve", record { api_key_env = codes "EVE"; roles = reviewer ∷ [] }) ∷ [];
  };
  approvals = record { required_paths = codes "/v1/git/push" ∷ [] };
  workspaces =
      (
        codes "demo",
        record {
          root = codes "/srv/demo";
          capabilities = record {
            fs_read = true;
            fs_write = false;
            commands = false;
            git_read = false;
            git_write = false;
            git_network = false;
          };
        },
      )
      ∷ [];
}

abbrev key_of : Str → Str
key_of name = codes "0123456789abcdef0123456789abcdef-" ++ name

abbrev env : Environment
env name = some (key_of name)

abbrev loaded : List LoadedPrincipal
loaded =
    record { name = admin_name; key = key_of (codes "ADMIN"); roles = admin ∷ [] }
    ∷ record { name = codes "eve"; key = key_of (codes "EVE"); roles = reviewer ∷ [] }
    ∷ []

auth_principals_ok_example :
    ((others : List LoadedPrincipal) × (key : Str) × (loaded
        ≡ record { name = admin_name; key = key; roles = admin ∷ [] } ∷ others))
    × All (λ p. IsStrong p.key) loaded
    × AreDistinct loaded
unfolding checks
auth_principals_ok_example = auth_principals_ok env config loaded refl

-- Sixteen characters of two bytes each.
abbrev short_key : Str
short_key =
    233 ∷ 233 ∷ 233 ∷ 233 ∷ 233 ∷ 233 ∷ 233 ∷ 233 ∷ 233 ∷ 233 ∷ 233 ∷ 233 ∷ 233 ∷ 233 ∷ 233 ∷ 233
    ∷ []

-- The bytes of a key are counted.
loads_short_key : read_secret (λ name. some short_key) (codes "ADMIN") ≡ ok short_key
unfolding checks read_secret
loads_short_key = refl
