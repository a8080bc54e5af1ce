-- ===== src/Config/Validate.antt =====
-- `Config::validate` and `Config::auth_principals` of src/config.rs. The environment is a parameter.
use tux_bridge.Prelude.{
  ◌*◌, String, Str, codes, Bool, true, false, not, ◌||◌, Option, List, [], ◌∷◌, any, is_empty, ltb,
  ◌==◌, len, trim, trim_matches, starts_with, contains, eq_str, is_whitespace, is_control,
}
use tux_bridge.Prelude.Dict.{Dict}
use tux_bridge.Error.{Result, ok, refuse_if, ok_or, ◌>>◌, ◌>>=◌, Message, says, text, shown, quoted}
use tux_bridge.Config.{
  AuthRole, admin, developer, reviewer, operator, PrincipalConfig, LoadedPrincipal, LspServerConfig,
  LimitsConfig, Config,
}

-- `Read` and `Parse` come from the file, which is not modelled.
pub data ConfigError : Type 0 where
  missing_secret : Str → ConfigError
  invalid : Message → ConfigError

abbrev Check : Type 0
Check = Result (Unit {0}) ConfigError

abbrev blank : Str → Bool
blank s = is_empty (trim s)

unfoldable pub same_role : AuthRole → AuthRole → Bool
same_role admin admin = true
same_role developer developer = true
same_role reviewer reviewer = true
same_role operator operator = true
same_role _ _ = false

-- The set of the roles is smaller than the list.
unfoldable pub has_duplicate_roles : List AuthRole → Bool
unfolding same_role
has_duplicate_roles [] = false
has_duplicate_roles (r ∷ rs) = any (same_role r) rs || has_duplicate_roles rs

unfoldable pub validate_env_name : Message → Str → Check
validate_env_name label value = refuse_if (blank value || any is_whitespace value) (invalid (label))

unfoldable pub validate_principals : Dict PrincipalConfig → Check
unfolding validate_env_name has_duplicate_roles
validate_principals [] = ok tt
validate_principals ((name, p) ∷ rest) = do
  refuse_if (blank name || any is_whitespace name)
      (invalid (says "auth principal names must be non-empty and whitespace-free"))
  validate_env_name
      (text "auth.principals."
        ∷ shown name
        ∷ text ".api_key_env must be a non-empty environment variable name"
        ∷ [])
      p.api_key_env
  refuse_if (is_empty p.roles)
      (invalid (text "auth principal " ∷ quoted name ∷ text " must have at least one role" ∷ []))
  refuse_if (has_duplicate_roles p.roles)
      (invalid (text "auth principal " ∷ quoted name ∷ text " contains duplicate roles" ∷ []))
  validate_principals rest

unfoldable pub validate_allowlist : List Str → Check
validate_allowlist [] = ok tt
validate_allowlist (program ∷ rest) = do
  refuse_if
      (blank program
        || starts_with (codes "-") program
        || contains (codes "/") program
        || any is_whitespace program)
      (invalid (text "invalid default command allowlist entry " ∷ quoted program ∷ []))
  validate_allowlist rest

unfoldable pub validate_approval_paths : List Str → Check
validate_approval_paths [] = ok tt
validate_approval_paths (path ∷ rest) = do
  refuse_if (not (starts_with (codes "/v1/") path) || any is_whitespace path) (
      invalid (
        text "approval path "
        ∷ quoted path
        ∷ text " must be an exact whitespace-free /v1/... path"
        ∷ []))
  refuse_if (starts_with (codes "/v1/approvals/") path)
      (invalid (says "approval management endpoints cannot require their own approval"))
  validate_approval_paths rest

-- `argv.is_empty() || argv[0].trim().is_empty()`
abbrev no_program : List Str → Bool
no_program [] = true
no_program (program ∷ args) = blank program

unfoldable pub validate_servers : Dict LspServerConfig → Check
validate_servers [] = ok tt
validate_servers ((name, s) ∷ rest) = do
  refuse_if (blank name) (invalid (says "LSP server names must not be empty"))
  refuse_if (no_program s.argv)
      (invalid (text "LSP server " ∷ quoted name ∷ text " must define a non-empty argv" ∷ []))
  refuse_if (any (any (λ c. c == 0)) s.argv)
      (invalid (text "LSP server " ∷ quoted name ∷ text " argv contains a NUL byte" ∷ []))
  refuse_if
      (any (λ e. is_empty (trim_matches (λ c. c == b'.') e) || any is_whitespace e) s.extensions)
      (invalid (text "LSP server " ∷ quoted name ∷ text " has an invalid extension mapping" ∷ []))
  validate_servers rest

unfoldable pub validate_limits : LimitsConfig → Check
validate_limits l = do
  refuse_if (ltb l.max_body_bytes 1024 || ltb (64 * 1024 * 1024) l.max_body_bytes)
      (invalid (says "limits.max_body_bytes must be between 1024 and 67108864"))
  refuse_if (l.max_in_flight == 0 || ltb 1024 l.max_in_flight)
      (invalid (says "limits.max_in_flight must be between 1 and 1024"))
  refuse_if
      (l.command_timeout_seconds == 0
        || l.max_command_timeout_seconds == 0
        || ltb l.max_command_timeout_seconds l.command_timeout_seconds
        || ltb 3600 l.max_command_timeout_seconds)
      (invalid (says "command timeout limits are invalid or exceed one hour"))
  refuse_if (l.command_output_bytes == 0 || ltb (16 * 1024 * 1024) l.command_output_bytes)
      (invalid (says "limits.command_output_bytes must be between 1 and 16777216"))
  refuse_if (l.max_jobs == 0 || ltb 4096 l.max_jobs)
      (invalid (says "limits.max_jobs must be between 1 and 4096"))

-- `Path::is_absolute`
abbrev pub is_absolute : Str → Bool
is_absolute path = starts_with (codes "/") path

unfoldable pub validate_roots {ℓ} : {C : Type ℓ} → String → (C → Str) → Dict C → Check
validate_roots kind root [] = ok tt
validate_roots kind root ((name, c) ∷ rest) = do
  refuse_if (blank name) (invalid (text kind ∷ text " names must not be empty" ∷ []))
  refuse_if (not (is_absolute (root c)))
      (invalid (text kind ∷ text " " ∷ quoted name ∷ text " root must be an absolute path" ∷ []))
  validate_roots kind root rest

unfoldable pub validate : Config → Check
validate c = do
  refuse_if (blank c.server.listen) (invalid (says "server.listen must not be empty"))
  validate_env_name (says "auth.api_key_env must be a non-empty environment variable name")
      c.auth.api_key_env
  validate_principals c.auth.principals
  refuse_if (is_empty c.security.default_command_allowlist)
      (invalid (says "security.default_command_allowlist must not be empty"))
  validate_allowlist c.security.default_command_allowlist
  validate_approval_paths c.approvals.required_paths
  validate_servers c.servers
  validate_limits c.limits
  validate_roots "workspace" (λ w. w.root) c.workspaces
  validate_roots "user-files mount" (λ m. m.root) c.user_files

-- `env::var`; a value that is not Unicode counts as missing.
abbrev pub Environment : Type 0
Environment = Str → Option Str

unfoldable pub read_secret : Environment → Str → Result Str ConfigError
read_secret env name = do
  value ← ok_or (env name) (missing_secret name)
  refuse_if (ltb (len value) 32 || not (eq_str (trim value) value) || any is_control value) (
      invalid (
        text "API key from "
        ∷ shown name
        ∷ text
            " must be at least 32 characters and contain no surrounding whitespace or control characters"
        ∷ []))
  ok value

unfoldable pub load_principals :
    Environment → Dict PrincipalConfig → Result (List LoadedPrincipal) ConfigError
unfolding read_secret
load_principals env [] = ok []
load_principals env ((name, p) ∷ rest) = do
  key ← read_secret env p.api_key_env
  others ← load_principals env rest
  ok (record { name = name; key = key; roles = p.roles } ∷ others)

-- The loops over `l` and `r`: every later key differs.
unfoldable pub check_later : LoadedPrincipal → List LoadedPrincipal → Check
check_later p [] = ok tt
check_later p (q ∷ qs) = do
  refuse_if (eq_str p.key q.key) (
      invalid (
        text "auth principals "
        ∷ quoted p.name
        ∷ text " and "
        ∷ quoted q.name
        ∷ text " resolve to the same API key"
        ∷ []))
  check_later p qs

unfoldable pub check_distinct : List LoadedPrincipal → Check
unfolding check_later
check_distinct [] = ok tt
check_distinct (p ∷ ps) = do check_later p ps; check_distinct ps

unfoldable pub auth_principals : Environment → Config → Result (List LoadedPrincipal) ConfigError
unfolding load_principals check_distinct
auth_principals env c = do
  key ← read_secret env c.auth.api_key_env
  others ← load_principals env c.auth.principals
  let loaded = record { name = codes "admin"; key = key; roles = admin ∷ [] } ∷ others
  check_distinct loaded
  ok loaded
