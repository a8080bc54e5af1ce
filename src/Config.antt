-- ===== src/Config.antt =====
-- src/config.rs: the configuration, its defaults and its validation. Reading the TOML file is not
-- modelled; the maps are given in key order.
pub mod Validate
pub mod Bounds
pub mod Secrets
mod Tests
use tux_bridge.Prelude.{ℕ, ◌*◌, String, Str, codes, Bool, true, Option, List, [], ◌∷◌, map}
use tux_bridge.Prelude.Dict.{Dict}
use tux_bridge.Json.{Json}
use tux_bridge.Security.{SecurityProfile, default}

pub record ServerConfig : Type 0 where
  pub listen : Str

pub data AuthRole : Type 0 where
  admin developer reviewer operator : AuthRole

pub record PrincipalConfig : Type 0 where
  pub api_key_env : Str
  pub roles : List AuthRole

pub record AuthConfig : Type 0 where
  pub api_key_env : Str
  pub principals : Dict PrincipalConfig

pub record LoadedPrincipal : Type 0 where
  pub name : Str
  pub key : Str
  pub roles : List AuthRole

pub record SecurityConfig : Type 0 where
  pub profile : SecurityProfile
  pub default_command_allowlist : List Str

pub record ApprovalConfig : Type 0 where
  pub required_paths : List Str

pub record LimitsConfig : Type 0 where
  pub max_body_bytes : ℕ
  pub max_in_flight : ℕ
  pub command_timeout_seconds : ℕ
  pub max_command_timeout_seconds : ℕ
  pub command_output_bytes : ℕ
  pub max_jobs : ℕ
  pub job_retention_seconds : ℕ

pub record LspServerConfig : Type 0 where
  pub enabled : Bool
  pub argv : List Str
  pub extensions : List Str
  pub language_id : Option Str
  pub initialization_options : Option Json

pub record Capabilities : Type 0 where
  pub fs_read : Bool
  pub fs_write : Bool
  pub commands : Bool
  pub git_read : Bool
  pub git_write : Bool
  pub git_network : Bool

pub record WorkspaceConfig : Type 0 where
  pub root : Str
  pub capabilities : Capabilities

pub record UserFilesConfig : Type 0 where
  pub root : Str
  pub read : Bool
  pub write : Bool

pub record Config : Type 0 where
  pub server : ServerConfig
  pub auth : AuthConfig
  pub security : SecurityConfig
  pub approvals : ApprovalConfig
  pub limits : LimitsConfig
  pub servers : Dict LspServerConfig
  pub workspaces : Dict WorkspaceConfig
  pub user_files : Dict UserFilesConfig

abbrev pub default_command_allowlist : List Str
default_command_allowlist = map codes (
    "pwd" ∷ "ls" ∷ "cat" ∷ "head" ∷ "tail" ∷ "wc" ∷ "grep" ∷ "stat" ∷ "du" ∷ "df" ∷ "uname" ∷ "id"
    ∷ "whoami" ∷ [])

-- `LimitsConfig::default`
abbrev pub default_limits : LimitsConfig
default_limits = record {
  max_body_bytes = 10 * 1024 * 1024;
  max_in_flight = 32;
  command_timeout_seconds = 120;
  max_command_timeout_seconds = 900;
  command_output_bytes = 2 * 1024 * 1024;
  max_jobs = 128;
  job_retention_seconds = 3600;
}

-- The configuration of an empty file.
abbrev pub default_config : Config
default_config = record {
  server = record { listen = codes "127.0.0.1:8787" };
  auth = record { api_key_env = codes "TUXBRIDGE_API_KEY"; principals = [] };
  security = record { profile = default; default_command_allowlist = default_command_allowlist };
  approvals = record { required_paths = [] };
  limits = default_limits;
  servers = [];
  workspaces = [];
  user_files = [];
}
