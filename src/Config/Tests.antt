-- ===== src/Config/Tests.antt =====
-- A production environment.
use text.Mathlib.TextLemmas.{cons-ne-nil}
use careerpilot.Base.{◌≡◌, refl, inr, [], ◌∷◌, arith, nat_eq, string_eq, pos, ok}
use careerpilot.Base.Number.{atoi, read_digits, read_from}
use careerpilot.Config.{Environment, Config, load_limits, get_env, get_env_int, load}
use careerpilot.Config.Written.{written, LimitsInRange, load-written}

abbrev vars : Environment
vars =
    ("CAREERPILOT_ENV", "production")
    ∷ ("CAREERPILOT_DATABASE_URL", "postgres://db")
    ∷ ("CAREERPILOT_LIMIT_APPLICATIONS_PER_DAY", "5")
    ∷ []

abbrev loaded : Config
loaded = record {
  env = "production";
  http_addr = ":8080";
  database_url = "postgres://db";
  log_level = "info";
  limits = record {
    jobs_discovered_per_day = pos 100;
    deep_evaluations_per_day = pos 30;
    applications_per_day = pos 5;
    browser_sessions_per_day = pos 10;
    max_retries_per_app = pos 2;
    max_session_minutes = pos 30;
  };
}

loads : load vars ≡ ok loaded
unfolding load load_limits get_env_int get_env string_eq atoi read_digits read_from nat_eq
loads = refl

abbrev limits_in_range : LimitsInRange loaded.limits
limits_in_range = (omega arith, omega arith, omega arith, omega arith, omega arith, omega arith)

load-written_example : load (written loaded) ≡ ok loaded
load-written_example =
    load-written loaded (cons-ne-nil "p" "roduction") (cons-ne-nil ":" "8080")
      (cons-ne-nil "i" "nfo") (inr (cons-ne-nil "p" "ostgres://db")) limits_in_range
