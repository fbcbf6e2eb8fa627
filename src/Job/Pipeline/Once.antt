-- ===== src/Job/Pipeline/Once.antt =====
-- That a job is evaluated at most once at each stage.
use careerpilot.Base.{
  ℕ, suc, ◌≤◌, String, ◌≡◌, Bool, true, false, ◌&&◌, Option, none, some, List, [], ◌∷◌, arith,
  if◌then◌else◌, nat_eq, ◌==◌, string_eq, int_eq, Error, ok, Time,
}
use careerpilot.Job.Types
use careerpilot.Job.Types.{apply, recommendation_eq, Job, Score, Call}
use careerpilot.Job.Pipeline.{
  Env, save_score, triage, evaluate, run_triage, triage_anew, evaluate_anew, run_deep_evaluation,
  deepen, process,
}

abbrev succeeded : Option Error → Bool
succeeded none = true
succeeded (some e) = false

-- The evaluations of a job at a stage that the store has taken.
abbrev pub evaluations : Env → String → String → List Call → ℕ
evaluations env id stage [] = 0
evaluations env id stage (Types.save_evaluation e ∷ h) =
    let rest = evaluations env id stage h in
    if e.job_id == id && e.stage == stage && succeeded (env.save_evaluation h e)
    then suc rest
    else rest
evaluations env id stage (_ ∷ h) = evaluations env id stage h

-- An evaluation store that finds an evaluation of a job at a stage once it has taken one; it may
-- fail instead.
abbrev pub FindsEvaluations : Env → Type 0
FindsEvaluations env =
    (h : List Call) (id stage : String)
    → env.get_evaluation h id stage ≡ ok none
    → evaluations env id stage h ≡ 0

module _ (env : Env) (id stage : String) where
  -- Evaluations of this job at this stage.
  abbrev here : List Call → ℕ
  here = evaluations env id stage

  triage-here : (i prompt : String) (h : List Call) → here (triage env i prompt h).1 ≡ here h
  unfolding triage
  triage-here i prompt h = ground arith

  evaluate-here : (i prompt : String) (h : List Call) → here (evaluate env i prompt h).1 ≡ here h
  unfolding evaluate
  evaluate-here i prompt h = ground arith

  save_score-here :
      (i s : String) (score : Score) (failed : String) (h : List Call)
      → here (save_score env i s score failed h).1
        ≤ (if i == id && s == stage then suc (here h) else here h)
  unfolding save_score
  save_score-here i s score failed h = ground arith

  ruleset stage_here = (arith, triage-here, evaluate-here, save_score-here)

  triage_anew-here :
      (j : Job) (h : List Call)
      → here (triage_anew env j h).1
        ≤ (if j.id == id && "triage" == stage then suc (here h) else here h)
  unfolding triage_anew
  triage_anew-here j h = grind stage_here

  evaluate_anew-here :
      (j : Job) (h : List Call)
      → here (evaluate_anew env j h).1
        ≤ (if j.id == id && "deep_evaluation" == stage then suc (here h) else here h)
  unfolding evaluate_anew
  evaluate_anew-here j h = grind stage_here

  module _ (finds : FindsEvaluations env) where
    run_triage-once : (j : Job) (h : List Call) → here h ≤ 1 → here (run_triage env j h).1 ≤ 1
    unfolding run_triage
    run_triage-once j h once =
        ground
          (arith, finds h id stage, triage_anew-here j (Types.get_evaluation j.id "triage" ∷ h))

    run_deep_evaluation-once :
        (j : Job) (h : List Call) → here h ≤ 1 → here (run_deep_evaluation env j h).1 ≤ 1
    unfolding run_deep_evaluation
    run_deep_evaluation-once j h once = ground (
      arith,
      finds h id stage,
      evaluate_anew-here j (Types.get_evaluation j.id "deep_evaluation" ∷ h),
    )

    deepen-once :
        (start : Time) (j : Job) (s : Score) (h : List Call)
        → here h ≤ 1
        → here (deepen env start j s h).1 ≤ 1
    unfolding deepen
    deepen-once start j s h once =
        ground (arith, run_deep_evaluation-once j (Types.count_deep_evaluations_since start ∷ h))

    pub process-once : (j : Job) (h : List Call) → here h ≤ 1 → here (process env j h).1 ≤ 1
    unfolding process
    process-once j h once = grind (arith, run_triage-once, deepen-once)
