-- ===== src/Scheduler/Tests.antt =====
-- The tasks of internal/scheduler on small inputs.
use careerpilot.Base.{
  map, ◌++◌, ℕ, zero, suc, ◌+◌, ◌≤◌, ◌<◌, ◌≡◌, refl, ◌≢◌, ◌⊎◌, Option, none, some, List, [], ◌∷◌,
  arith, pos, pos_part, Error, message, ok, err,
}
use careerpilot.Job.Types.{RawJob, Store}
use careerpilot.Scheduler.Retry
use careerpilot.Scheduler.Retry.{Run, job_discovery, succeeded, dead_letter, execute}
use careerpilot.Scheduler.Retry.Bounded.{attempts, execute_bounded}
use careerpilot.Scheduler.Retry.Success.{execute_first_success}
use careerpilot.Scheduler.Discovery
use careerpilot.Scheduler.Discovery.{Source}
use careerpilot.Scheduler.Discovery.Accounts.{saves}
use careerpilot.Scheduler.Discovery.Fetched.{fetched_sources}
use careerpilot.Scheduler.Discovery.Complete.{discovery_complete}
use careerpilot.Scheduler.Proposal.{DetectedChange, low, high}

-- Fails at the first attempt and succeeds from the second one on.
flaky : ℕ → Option Error
flaky (suc zero) = some (message "unreachable")
flaky _ = none

env : Retry.Env
env = record { new_id = λ h. "r1"; now = λ h. pos 0; fn = λ h n. flaky n }

execute_bounded_example :
    (run : Run) × ((execute env (pos 2) job_discovery []).0 ≡ some run)
    × (attempts (execute env (pos 2) job_discovery []).1 ≡ attempts [] + run.attempt)
    × (1 ≤ run.attempt)
    × (run.attempt ≤ suc (pos_part (pos 2)))
    × ((run.status ≡ succeeded)
        ⊎ ((run.status ≡ dead_letter) × (run.attempt ≡ suc (pos_part (pos 2)))))
execute_bounded_example = execute_bounded env (pos 2) job_discovery []

fails_first : (h : List Retry.Call) (m : ℕ) → m < 1 → env.fn h (suc m) ≢ none
unfolding env flaky
fails_first h zero early = ground arith
fails_first h (suc m) early = absurd (omega arith)

succeeds_second : (h : List Retry.Call) → env.fn h 2 ≡ none
unfolding env flaky
succeeds_second h = refl

execute_first_success_example :
    (run : Run) × ((execute env (pos 2) job_discovery []).0 ≡ some run)
    × (run.status ≡ succeeded)
    × (run.attempt ≡ 2)
execute_first_success_example =
    execute_first_success env (pos 2) job_discovery 1 (omega arith) fails_first succeeds_second []

abbrev raw : RawJob
raw = record {
  source_job_id = "7";
  url = "";
  company = "Acme";
  title = "Go engineer";
  location = "Remote";
  description = "";
  extra = [];
}

abbrev store : Store
store = record {
  count_discovered_since = λ h since. ok (pos 1);
  find_by_source_job_id = λ h source id. ok none;
  find_by_normalized_hash = λ h hash. ok none;
  save_job = λ h j. ok j;
}

abbrev sources : List Source
sources =
    record { name = "dead"; fetch_jobs = λ h. err (message "timeout") }
    ∷ record { name = "greenhouse"; fetch_jobs = λ h. ok (raw ∷ []) }
    ∷ []

discovery_complete_example :
    let ((result, first_err), h') = Discovery.run (λ s. s) store sources [] in
    (fetched_sources h' ≡ fetched_sources [] ++ map (λ s. s.name) sources)
    × (saves h' ≤ result.fetched + saves [])
    × (saves [] + result.ingested ≤ saves h')
    × ((first_err ≢ none) ⊎ (result.ingested ≡ result.fetched))
discovery_complete_example = discovery_complete (λ s. s) store sources []

abbrev changes : List DetectedChange
changes =
    record { description = "new title"; section = "experience"; risk = high }
    ∷ record { description = "new skill"; section = "skills"; risk = low }
    ∷ []
