-- ===== src/Config/Bounds.antt =====
-- What a configuration that `Config::validate` accepts guarantees to the rest of the program.
use tux_bridge.Prelude.{◌≤◌, ◌≡◌, Str, codes, true, false, starts_with}
use tux_bridge.Prelude.Dict.{Dict}
use tux_bridge.Config.{Config, LimitsConfig}

pub record AreBounded (l : LimitsConfig) : Type 0 where
  pub body : (1024 ≤ l.max_body_bytes) × (l.max_body_bytes ≤ 67108864)
  pub in_flight : (1 ≤ l.max_in_flight) × (l.max_in_flight ≤ 1024)
  pub timeout :
      (1 ≤ l.command_timeout_seconds)
      × (l.command_timeout_seconds ≤ l.max_command_timeout_seconds)
      × (l.max_command_timeout_seconds ≤ 3600)
  pub output : (1 ≤ l.command_output_bytes) × (l.command_output_bytes ≤ 16777216)
  pub jobs : (1 ≤ l.max_jobs) × (l.max_jobs ≤ 4096)

-- A path that may require approval: below /v1/, and not one of the approval endpoints.
pub record IsGuardable (path : Str) : Type 0 where
  pub api : starts_with (codes "/v1/") path ≡ true
  pub not_approvals : starts_with (codes "/v1/approvals/") path ≡ false
