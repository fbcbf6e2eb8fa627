-- ===== src/Job/Pipeline/Laws.antt =====
-- How often the models are called, under which conditions, and what is recorded.
use careerpilot.Base.{
  ℕ, ◌+◌, ◌≤◌, String, ◌≡◌, ◌≢◌, ◌⊎◌, Bool, true, false, List, ◌∷◌, arith, count_if, ℤ, ◌≤ℤ◌, ◌<ℤ◌,
  ok, Time, start_of_day,
}
use careerpilot.ModelProvider.Recorder
use careerpilot.Job.Types
use careerpilot.Job.Types.{apply, Job, Score, Call, model_call}
use careerpilot.Job.Pipeline.{
  Env, save_score, triage, evaluate, run_triage, triage_anew, evaluate_anew, run_deep_evaluation,
  deepen, process,
}

-- Calls of a model, and audit records of such calls.
abbrev is_generate : Call → Bool
is_generate (model_call (Recorder.provider_generate r)) = true
is_generate _ = false

abbrev is_audit : Call → Bool
is_audit (model_call (Recorder.save_run r)) = true
is_audit _ = false

abbrev pub generates : List Call → ℕ
generates = count_if is_generate

abbrev pub audits : List Call → ℕ
audits = count_if is_audit

-- At most `n` model calls were added, and as many audit records as model calls.
abbrev pub Adds : ℕ → List Call → List Call → Type 0
Adds n h h' = (generates h' ≤ generates h + n) × (audits h' + generates h ≡ audits h + generates h')

module _ (env : Env) where
  triage-Adds : (id prompt : String) (h : List Call) → Adds 1 h (triage env id prompt h).1
  unfolding triage
  triage-Adds id prompt h = ground arith

  evaluate-Adds : (id prompt : String) (h : List Call) → Adds 1 h (evaluate env id prompt h).1
  unfolding evaluate
  evaluate-Adds id prompt h = ground arith

  save_score-Adds :
      (id stage : String) (s : Score) (failed : String) (h : List Call)
      → Adds 0 h (save_score env id stage s failed h).1
  unfolding save_score
  save_score-Adds id stage s failed h = ground arith

  ruleset stage_adds = (arith, triage-Adds, evaluate-Adds, save_score-Adds)

  triage_anew-Adds : (j : Job) (h : List Call) → Adds 1 h (triage_anew env j h).1
  unfolding triage_anew
  triage_anew-Adds j h = grind stage_adds

  evaluate_anew-Adds : (j : Job) (h : List Call) → Adds 1 h (evaluate_anew env j h).1
  unfolding evaluate_anew
  evaluate_anew-Adds j h = grind stage_adds

  run_triage-Adds : (j : Job) (h : List Call) → Adds 1 h (run_triage env j h).1
  unfolding run_triage
  run_triage-Adds j h = grind (arith, triage_anew-Adds)

  run_deep_evaluation-Adds : (j : Job) (h : List Call) → Adds 1 h (run_deep_evaluation env j h).1
  unfolding run_deep_evaluation
  run_deep_evaluation-Adds j h = grind (arith, evaluate_anew-Adds)

  deepen-Adds :
      (start : Time) (j : Job) (s : Score) (h : List Call) → Adds 1 h (deepen env start j s h).1
  unfolding deepen
  deepen-Adds start j s h = grind (arith, run_deep_evaluation-Adds)

  -- A run makes at most two model calls, every one of them with an audit record.
  pub process-Adds : (j : Job) (h : List Call) → Adds 2 h (process env j h).1
  unfolding process
  process-Adds j h = grind (arith, run_triage-Adds, deepen-Adds)

  -- With the daily discovery limit reached, a run fails and calls nothing but the clock and the
  -- count.
  pub process_at_discovery_limit :
      (j : Job) (h : List Call) {n : ℤ}
      → let start = start_of_day (env.now h) in
        env.store.count_discovered_since (Types.read_clock ∷ h) start ≡ ok n
        → env.limits.jobs_discovered_per_day ≤ℤ n
        → ((process env j h).1 ≡ Types.count_discovered_since start ∷ Types.read_clock ∷ h)
          × ((s : Score) → (process env j h).0 ≢ ok s)
  unfolding process
  process_at_discovery_limit j h counted full = (ground arith, λ s e. ground arith)

  -- Below the daily discovery limit and after a successful triage, where triage does not recommend
  -- to apply or the daily deep-evaluation limit is reached, the run returns the triage score and
  -- makes no model call beyond those of triage.
  pub process_without_deep_evaluation :
      (j : Job) (h : List Call) {n m : ℤ} {s : Score}
      → let start = start_of_day (env.now h) in
        let h₁ = Types.count_discovered_since start ∷ Types.read_clock ∷ h in
        let h₂ = (run_triage env j h₁).1 in
        env.store.count_discovered_since (Types.read_clock ∷ h) start ≡ ok n
        → n <ℤ env.limits.jobs_discovered_per_day
        → (run_triage env j h₁).0 ≡ ok s
        → env.count_deep_evaluations_since h₂ start ≡ ok m
        → (s.recommendation ≢ apply) ⊎ (env.limits.deep_evaluations_per_day ≤ℤ m)
        → ((process env j h).0 ≡ ok s) × (generates (process env j h).1 ≡ generates h₂)
  unfolding process deepen
  process_without_deep_evaluation j h counted room triaged deep_count stop = ground arith
