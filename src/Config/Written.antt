-- ===== src/Config/Written.antt =====
-- That a configuration written to the environment is loaded back.
use careerpilot.Base.{
  String, ◌≡◌, refl, ap, ◌∙◌, ◌≢◌, ◌⊎◌, inl, inr, some, [], ◌∷◌, arith, nat_eq, string_eq, ℤ, pos,
  int_eq, show_ℤ, ok,
}
use careerpilot.Base.Dict.{lookup}
use careerpilot.Base.Number.{atoi}
use careerpilot.Base.Number.RoundTrip.{InRange, atoi-show_ℤ}
use careerpilot.Config.{
  Environment, Limits, Config, parse_int, get_env, get_env_int, load_limits, config_with, checked,
  load,
}

-- The variables that a configuration is read from, the limits in decimal.
abbrev pub written : Config → Environment
written cfg =
    ("CAREERPILOT_ENV", cfg.env)
    ∷ ("CAREERPILOT_HTTP_ADDR", cfg.http_addr)
    ∷ ("CAREERPILOT_DATABASE_URL", cfg.database_url)
    ∷ ("CAREERPILOT_LOG_LEVEL", cfg.log_level)
    ∷ ("CAREERPILOT_LIMIT_JOBS_DISCOVERED_PER_DAY", show_ℤ cfg.limits.jobs_discovered_per_day)
    ∷ ("CAREERPILOT_LIMIT_DEEP_EVALUATIONS_PER_DAY", show_ℤ cfg.limits.deep_evaluations_per_day)
    ∷ ("CAREERPILOT_LIMIT_APPLICATIONS_PER_DAY", show_ℤ cfg.limits.applications_per_day)
    ∷ ("CAREERPILOT_LIMIT_BROWSER_SESSIONS_PER_DAY", show_ℤ cfg.limits.browser_sessions_per_day)
    ∷ ("CAREERPILOT_LIMIT_MAX_RETRIES_PER_APPLICATION", show_ℤ cfg.limits.max_retries_per_app)
    ∷ ("CAREERPILOT_LIMIT_MAX_SESSION_MINUTES", show_ℤ cfg.limits.max_session_minutes)
    ∷ []

-- Every limit fits in 64 bits.
abbrev pub LimitsInRange : Limits → Type 0
LimitsInRange l =
    InRange l.jobs_discovered_per_day
    × InRange l.deep_evaluations_per_day
    × InRange l.applications_per_day
    × InRange l.browser_sessions_per_day
    × InRange l.max_retries_per_app
    × InRange l.max_session_minutes

unreadable : (v : ℤ) → atoi "" ≢ ok v
unfolding atoi
unreadable v reads = ground arith

get_env_int-written :
    (vars : Environment) (key : String) (fallback v : ℤ)
    → lookup key vars ≡ some (show_ℤ v)
    → InRange v
    → get_env_int vars key fallback ≡ ok v
unfolding get_env_int parse_int
get_env_int-written vars key fallback v found fits =
    let reads = atoi-show_ℤ v fits in
    let some_text : show_ℤ v ≢ "" = λ empty. unreadable v (rw empty at reads) in ground arith

get_env-written :
    (vars : Environment) (key fallback v : String)
    → lookup key vars ≡ some v
    → (v ≢ "") ⊎ (fallback ≡ "")
    → get_env vars key fallback ≡ v
unfolding get_env
get_env-written vars key fallback v found kept = ground arith

config_with-written :
    (cfg : Config)
    → cfg.env ≢ ""
    → cfg.http_addr ≢ ""
    → cfg.log_level ≢ ""
    → config_with (written cfg) cfg.limits ≡ cfg
unfolding lookup string_eq
config_with-written cfg env addr level =
    let vars = written cfg in
    rw
      (
        get_env-written vars "CAREERPILOT_ENV" "development" cfg.env refl (inl env),
        get_env-written vars "CAREERPILOT_HTTP_ADDR" ":8080" cfg.http_addr refl (inl addr),
        get_env-written vars "CAREERPILOT_DATABASE_URL" "" cfg.database_url refl (inr refl),
        get_env-written vars "CAREERPILOT_LOG_LEVEL" "info" cfg.log_level refl (inl level),
      )
      refl

load_limits-written :
    (cfg : Config) → LimitsInRange cfg.limits → load_limits (written cfg) ≡ ok cfg.limits
unfolding load_limits lookup string_eq
load_limits-written cfg (jobs, evaluations, applications, sessions, retries, minutes) =
    let vars = written cfg in
    let l = cfg.limits in
    rw
      (
        get_env_int-written vars "CAREERPILOT_LIMIT_JOBS_DISCOVERED_PER_DAY" (pos 100)
            l.jobs_discovered_per_day refl jobs,
        get_env_int-written vars "CAREERPILOT_LIMIT_DEEP_EVALUATIONS_PER_DAY" (pos 30)
            l.deep_evaluations_per_day refl evaluations,
        get_env_int-written vars "CAREERPILOT_LIMIT_APPLICATIONS_PER_DAY" (pos 15)
            l.applications_per_day refl applications,
        get_env_int-written vars "CAREERPILOT_LIMIT_BROWSER_SESSIONS_PER_DAY" (pos 10)
            l.browser_sessions_per_day refl sessions,
        get_env_int-written vars "CAREERPILOT_LIMIT_MAX_RETRIES_PER_APPLICATION" (pos 2)
            l.max_retries_per_app refl retries,
        get_env_int-written vars "CAREERPILOT_LIMIT_MAX_SESSION_MINUTES" (pos 30)
            l.max_session_minutes refl minutes,
      )
      refl

checked-passes :
    (vars : Environment) (cfg : Config)
    → (cfg.env ≢ "production") ⊎ (cfg.database_url ≢ "")
    → checked vars cfg ≡ ok cfg
unfolding checked
checked-passes vars cfg url = ground arith

-- A configuration whose environment, address and log level are named, which has a database URL in
-- production and whose limits fit in 64 bits, written to the environment, loads back the same.
pub load-written :
    (cfg : Config)
    → cfg.env ≢ ""
    → cfg.http_addr ≢ ""
    → cfg.log_level ≢ ""
    → (cfg.env ≢ "production") ⊎ (cfg.database_url ≢ "")
    → LimitsInRange cfg.limits
    → load (written cfg) ≡ ok cfg
unfolding load
load-written cfg env addr level url fits = rw (load_limits-written cfg fits) (
    ap (checked (written cfg)) (config_with-written cfg env addr level)
    ∙ checked-passes (written cfg) cfg url)
