-- ===== src/Config/Production.antt =====
-- What a loaded configuration guarantees.
use careerpilot.Base.{◌≡◌, ◌≢◌, ◌↔◌, ◌⊎◌, inl, inr, arith, ok, Result-cases}
use careerpilot.Config.{Environment, Config, load_limits, config_with, load}

-- Loading succeeds exactly when all the limits load and, in production, a database URL is set;
-- the configuration then has those limits and the variables' values or defaults.
pub load_exact :
    (vars : Environment) (cfg : Config)
    → (load vars ≡ ok cfg) ↔ (
        (load_limits vars ≡ ok cfg.limits)
        × (cfg ≡ config_with vars cfg.limits)
        × ((cfg.env ≢ "production") ⊎ (cfg.database_url ≢ "")))
unfolding load
load_exact vars cfg = elim (Result-cases (load_limits vars)) [
  | inl (limits, loaded) ↦ ground arith
  | inr (e, failed) ↦ ground arith
]
