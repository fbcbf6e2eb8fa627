-- ===== src/Config.antt =====
-- internal/config/config.go: the configuration from environment variables, and parseLevel of
-- internal/logging/logging.go.
pub mod Production
pub mod Written
mod Tests
use careerpilot.Base.{
  String, ◌<>◌, ◌&&◌, ◌||◌, none, some, if◌then◌else◌, nat_eq, ◌==◌, string_eq, ℤ, pos, int_eq,
  to_lower, message, wrap, Result, ok, err,
}
use careerpilot.Base.Number.{atoi}
use careerpilot.Base.Dict.{Dict, lookup}

pub record Limits : Type 0 where
  pub jobs_discovered_per_day : ℤ
  pub deep_evaluations_per_day : ℤ
  pub applications_per_day : ℤ
  pub browser_sessions_per_day : ℤ
  pub max_retries_per_app : ℤ
  pub max_session_minutes : ℤ

pub record Config : Type 0 where
  pub env : String
  pub http_addr : String
  pub database_url : String
  pub log_level : String
  pub limits : Limits

-- `os.LookupEnv` on the environment of the process.
abbrev pub Environment : Type 0
Environment = Dict String String

unfoldable pub get_env : Environment → String → String → String
unfolding lookup
get_env vars key fallback = elim (lookup key vars) [
  | none ↦ fallback
  | some v ↦ if v == "" then fallback else v
]

pub data Level : Type 0 where
  debug info warn error : Level

-- `logging.parseLevel`.
unfoldable pub parse_level : String → Level
unfolding to_lower
parse_level level =
    let lower = to_lower level in
    if lower == "debug"
    then debug
    else if (lower == "warn") || (lower == "warning")
    then warn
    else if lower == "error"
    then error
    else info

module _ (vars : Environment) where
  parse_int : String → String → Result ℤ
  parse_int key v = elim (atoi v) [
    | ok n ↦ ok n
    | err e ↦ err (wrap ("config: invalid integer for " <> key) e)
  ]

  unfoldable pub get_env_int : String → ℤ → Result ℤ
  unfolding lookup parse_int
  get_env_int key fallback = elim (lookup key vars) [
    | none ↦ ok fallback
    | some v ↦ if v == "" then ok fallback else parse_int key v
  ]

  -- `if x, err = ...; err != nil { return Limits{}, err }`
  abbrev bind : {A B : Type 0} → Result A → (A → Result B) → Result B
  bind (ok a) f = f a
  bind (err e) f = err e

  unfoldable pub load_limits : Result Limits
  load_limits = bind (get_env_int "CAREERPILOT_LIMIT_JOBS_DISCOVERED_PER_DAY" (pos 100)) λ jobs.
      bind (get_env_int "CAREERPILOT_LIMIT_DEEP_EVALUATIONS_PER_DAY" (pos 30)) λ evaluations.
        bind (get_env_int "CAREERPILOT_LIMIT_APPLICATIONS_PER_DAY" (pos 15)) λ applications.
          bind (get_env_int "CAREERPILOT_LIMIT_BROWSER_SESSIONS_PER_DAY" (pos 10)) λ sessions.
            bind (get_env_int "CAREERPILOT_LIMIT_MAX_RETRIES_PER_APPLICATION" (pos 2)) λ retries.
              bind (get_env_int "CAREERPILOT_LIMIT_MAX_SESSION_MINUTES" (pos 30)) λ minutes.
                ok (record {
                  jobs_discovered_per_day = jobs;
                  deep_evaluations_per_day = evaluations;
                  applications_per_day = applications;
                  browser_sessions_per_day = sessions;
                  max_retries_per_app = retries;
                  max_session_minutes = minutes;
                })

  abbrev pub config_with : Limits → Config
  config_with limits = record {
    env = get_env vars "CAREERPILOT_ENV" "development";
    http_addr = get_env vars "CAREERPILOT_HTTP_ADDR" ":8080";
    database_url = get_env vars "CAREERPILOT_DATABASE_URL" "";
    log_level = get_env vars "CAREERPILOT_LOG_LEVEL" "info";
    limits = limits;
  }

  -- `Load` on the limits.
  checked : Config → Result Config
  checked cfg =
      if (cfg.env == "production") && (cfg.database_url == "")
      then err
          (message "config: CAREERPILOT_DATABASE_URL is required when CAREERPILOT_ENV=production")
      else ok cfg

  unfoldable pub load : Result Config
  unfolding checked
  load = bind load_limits λ limits. checked (config_with limits)
