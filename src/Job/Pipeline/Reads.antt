-- ===== src/Job/Pipeline/Reads.antt =====
-- That processing a job saves no job.
use careerpilot.Base.{
  String, ◌≡◌, refl, inl, inr, Bool, true, false, List, [], ◌∷◌, ◌++◌, map, nat_eq, ◌==◌, string_eq,
  Option-cases, int_eq, leb_ℤ, on_ok_rule, if_cases, Result, M, Time, start_of_day,
}
use careerpilot.ModelProvider.Recorder
use careerpilot.Job.Types
use careerpilot.Job.Types.{apply, recommendation_eq, Job, Score, Call, model_call}
use careerpilot.Job.Pipeline.{
  Env, request, save_score, triage, evaluate, run_triage, triage_anew, evaluate_anew,
  run_deep_evaluation, deepen, process,
}

abbrev pub saves_job : Call → Bool
saves_job (Types.save_job j) = true
saves_job _ = false

-- What every call but the saving of a job keeps, the processing of a job keeps.
module _ (env : Env) (P : List Call → Type 0)
    (keeps : (c : Call) (h : List Call) → saves_job c ≡ false → P h → P (c ∷ h)) where
  nest-keeps : (own : List Recorder.Call) (h : List Call) → P h → P (map model_call own ++ h)
  nest-keeps [] h held = held
  nest-keeps (c ∷ own) h held = keeps (model_call c) _ refl (nest-keeps own h held)

  triage-keeps : (id prompt : String) (h : List Call) → P h → P (triage env id prompt h).1
  unfolding triage
  triage-keeps id prompt h held =
      nest-keeps (Recorder.generate (env.triage_model h) "job_triage" (request id prompt) []).1 h
        held

  evaluate-keeps : (id prompt : String) (h : List Call) → P h → P (evaluate env id prompt h).1
  unfolding evaluate
  evaluate-keeps id prompt h held =
      nest-keeps
        (Recorder.generate (env.evaluation_model h) "job_deep_evaluation" (request id prompt) []).1
        h held

  save_score-keeps :
      (id stage : String) (s : Score) (failed : String) (h : List Call)
      → P h
      → P (save_score env id stage s failed h).1
  unfolding save_score
  save_score-keeps id stage s failed h held = keeps _ _ refl (keeps _ _ refl (keeps _ _ refl held))

  triage_anew-keeps : (j : Job) (h : List Call) → P h → P (triage_anew env j h).1
  unfolding triage_anew
  triage_anew-keeps j h held =
      let (out, h') = triage env j.id (env.triage_prompt j) h in
      let kept = triage-keeps j.id (env.triage_prompt j) h held in
      on_ok_rule (λ x. P x.1) out _ _ h' (λ e. kept) λ o. save_score-keeps _ _ _ _ h' kept

  evaluate_anew-keeps : (j : Job) (h : List Call) → P h → P (evaluate_anew env j h).1
  unfolding evaluate_anew
  evaluate_anew-keeps j h held =
      let (out, h') = evaluate env j.id (env.evaluation_prompt j) h in
      let kept = evaluate-keeps j.id (env.evaluation_prompt j) h held in
      on_ok_rule (λ x. P x.1) out _ _ h' (λ e. kept) λ o. save_score-keeps _ _ _ _ h' kept

  run_triage-keeps : (j : Job) (h : List Call) → P h → P (run_triage env j h).1
  unfolding run_triage
  run_triage-keeps j h held =
      let kept = keeps (Types.get_evaluation j.id "triage") h refl held in
      on_ok_rule (λ x. P x.1) (env.get_evaluation h j.id "triage") _ _ _ (λ e. kept)
        λ found. elim (Option-cases found) [
          | inl missing ↦ rw missing (triage_anew-keeps j _ kept)
          | inr (e, stored) ↦ rw stored kept
        ]

  run_deep_evaluation-keeps : (j : Job) (h : List Call) → P h → P (run_deep_evaluation env j h).1
  unfolding run_deep_evaluation
  run_deep_evaluation-keeps j h held =
      let kept = keeps (Types.get_evaluation j.id "deep_evaluation") h refl held in
      on_ok_rule (λ x. P x.1) (env.get_evaluation h j.id "deep_evaluation") _ _ _ (λ e. kept)
        λ found. elim (Option-cases found) [
          | inl missing ↦ rw missing (evaluate_anew-keeps j _ kept)
          | inr (e, stored) ↦ rw stored kept
        ]

  deepen-keeps :
      (start : Time) (j : Job) (s : Score) (h : List Call) → P h → P (deepen env start j s h).1
  unfolding deepen
  deepen-keeps start j s h held =
      let h' = Types.count_deep_evaluations_since start ∷ h in
      let kept : P h' = keeps _ h refl held in
      on_ok_rule (λ x. P x.1) (env.count_deep_evaluations_since h start) _ _ h' (λ e. kept)
        λ n.
          if_cases {A = M Call (Result Score)} (λ m. P (m h').1)
            (leb_ℤ env.limits.deep_evaluations_per_day n) _ _ (λ full. kept)
            λ room. run_deep_evaluation-keeps j h' kept

  pub process-keeps : (j : Job) (h : List Call) → P h → P (process env j h).1
  unfolding process
  process-keeps j h held =
      let start = start_of_day (env.now h) in
      let asked = Types.read_clock ∷ h in
      let h₁ = Types.count_discovered_since start ∷ asked in
      let kept : P h₁ = keeps _ _ refl (keeps _ _ refl held) in
      let (triaged, h₂) = run_triage env j h₁ in
      let kept' = run_triage-keeps j h₁ kept in
      on_ok_rule (λ x. P x.1) (env.store.count_discovered_since asked start) _ _ h₁ (λ e. kept)
        λ n.
          if_cases {A = M Call (Result Score)} (λ m. P (m h₁).1)
            (leb_ℤ env.limits.jobs_discovered_per_day n) _ _ (λ full. kept)
            λ room.
              on_ok_rule (λ x. P x.1) triaged _ _ h₂ (λ e. kept')
                λ score.
                  if_cases {A = M Call (Result Score)} (λ m. P (m h₂).1)
                    (score.recommendation == apply) _ _
                    (λ good. deepen-keeps start j score h₂ kept') λ bad. kept'
