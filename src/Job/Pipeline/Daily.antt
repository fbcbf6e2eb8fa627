-- ===== src/Job/Pipeline/Daily.antt =====
-- That the daily limit of deep evaluations holds over any sequence of processed jobs.
use careerpilot.Base.{
  ℕ, suc, ◌≤◌, String, ◌≡◌, refl, inl, inr, Bool, false, List, [], ◌∷◌, arith, if◌then◌else◌,
  nat_eq, ◌==◌, string_eq, count_if, ℤ, pos, int_eq, ◌≤ℤ◌, ok, Result-cases, Time, start_of_day,
}
use careerpilot.Job.Types
use careerpilot.Job.Types.{
  apply, recommendation_eq, Job, Score, Evaluation, Call, model_call, read_clock,
}
use careerpilot.Job.Pipeline.{
  Env, save_score, triage, evaluate, run_triage, triage_anew, evaluate_anew, run_deep_evaluation,
  deepen, process,
}

-- Deep evaluations that were given to the store.
abbrev is_deep : Call → Bool
is_deep (Types.save_evaluation e) = e.stage == "deep_evaluation"
is_deep _ = false

abbrev pub deep_evaluations : List Call → ℕ
deep_evaluations = count_if is_deep

-- A day: any jobs, processed one after the other.
pub data Day (env : Env) : List Call → Type 0 where
  morning : Day env []
  processed : {h : List Call} (j : Job) → Day env h → Day env (process env j h).1

-- An evaluation store that counts, since the start of the day, at least the deep evaluations that it
-- was given.
abbrev pub CountsDeep : Env → Time → Type 0
CountsDeep env today =
    (h : List Call) (n : ℤ)
    → env.count_deep_evaluations_since h today ≡ ok n
    → pos (deep_evaluations h) ≤ℤ n

triage_is_not_deep : let stage : String = "triage" in (stage == "deep_evaluation") ≡ false
unfolding string_eq
triage_is_not_deep = refl

module _ (env : Env) where
  triage-deep :
      (id prompt : String) (h : List Call)
      → deep_evaluations (triage env id prompt h).1 ≡ deep_evaluations h
  unfolding triage
  triage-deep id prompt h = ground arith

  evaluate-deep :
      (id prompt : String) (h : List Call)
      → deep_evaluations (evaluate env id prompt h).1 ≡ deep_evaluations h
  unfolding evaluate
  evaluate-deep id prompt h = ground arith

  save_score-deep :
      (id stage : String) (s : Score) (failed : String) (h : List Call)
      → deep_evaluations (save_score env id stage s failed h).1
        ≡ (if stage == "deep_evaluation" then suc (deep_evaluations h) else deep_evaluations h)
  unfolding save_score
  save_score-deep id stage s failed h = ground arith

  ruleset stage_deep = (arith, triage-deep, evaluate-deep, save_score-deep, triage_is_not_deep)

  triage_anew-deep :
      (j : Job) (h : List Call) → deep_evaluations (triage_anew env j h).1 ≡ deep_evaluations h
  unfolding triage_anew
  triage_anew-deep j h = grind stage_deep

  run_triage-deep :
      (j : Job) (h : List Call) → deep_evaluations (run_triage env j h).1 ≡ deep_evaluations h
  unfolding run_triage
  run_triage-deep j h = grind (arith, triage_anew-deep)

  evaluate_anew-deep :
      (j : Job) (h : List Call)
      → deep_evaluations (evaluate_anew env j h).1 ≤ suc (deep_evaluations h)
  unfolding evaluate_anew
  evaluate_anew-deep j h = grind stage_deep

  run_deep_evaluation-deep :
      (j : Job) (h : List Call)
      → deep_evaluations (run_deep_evaluation env j h).1 ≤ suc (deep_evaluations h)
  unfolding run_deep_evaluation
  run_deep_evaluation-deep j h = grind (arith, evaluate_anew-deep)

  module _ (today : Time) (same_day : (h : List Call) → start_of_day (env.now h) ≡ today)
      (counts : CountsDeep env today) (limit : ℕ)
      (limited : env.limits.deep_evaluations_per_day ≡ pos limit) where
    deepen-deep :
        (j : Job) (s : Score) (h : List Call)
        → deep_evaluations h ≤ limit
        → deep_evaluations (deepen env today j s h).1 ≤ limit
    unfolding deepen
    deepen-deep j s h within =
        let h' = Types.count_deep_evaluations_since today ∷ h in
        let one_more = run_deep_evaluation-deep j h' in
        elim (Result-cases (env.count_deep_evaluations_since h today)) [
          | inr (e, uncounted) ↦ ground arith
          | inl (n, counted) ↦ let enough = counts h n counted in ground arith
        ]

    process-deep :
        (j : Job) (h : List Call)
        → deep_evaluations h ≤ limit
        → deep_evaluations (process env j h).1 ≤ limit
    unfolding process
    process-deep j h within = grind (arith, same_day, run_triage-deep, deepen-deep)

    -- With a clock that stays within one day, and an evaluation store that counts at least the deep
    -- evaluations that it was given on that day, the pipeline gives it at most as many, over any
    -- sequence of processed jobs, as the daily limit of deep evaluations allows.
    pub daily_evaluations_hold : {h : List Call} → Day env h → deep_evaluations h ≤ limit
    daily_evaluations_hold morning = omega arith
    daily_evaluations_hold (processed {h} j day) = process-deep j h (daily_evaluations_hold day)
