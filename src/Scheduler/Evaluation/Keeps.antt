-- ===== src/Scheduler/Evaluation/Keeps.antt =====
-- What the processing of each job keeps, an evaluation run keeps.
use careerpilot.Base.{List, [], ◌∷◌, on_ok_rule}
use careerpilot.Job.Types
use careerpilot.Job.Types.{Job, Call}
use careerpilot.Job.Pipeline.{process}
use careerpilot.Scheduler.Evaluation.{EvaluationResult, tally, Task, evaluate_all, run}

module _ (t : Task) (P : List Call → Type 0)
    (listing_keeps : (h : List Call) → P h → P (Types.list_pending_evaluation t.batch_size ∷ h))
    (job_keeps : (j : Job) (h : List Call) → P h → P (process t.pipeline j h).1) where
  evaluate_all-keeps :
      (jobs : List Job) (r : EvaluationResult) (h : List Call) → P h → P (evaluate_all t jobs r h).1
  unfolding evaluate_all
  evaluate_all-keeps [] r h held = held
  evaluate_all-keeps (j ∷ jobs) r h held =
      let (processed, h') = process t.pipeline j h in
      let kept = job_keeps j h held in
      on_ok_rule (λ x. P x.1) processed _ _ h' (λ e. kept)
        λ score. evaluate_all-keeps jobs (tally r score.recommendation) h' kept

  pub run-keeps : (h : List Call) → P h → P (run t h).1
  unfolding run
  run-keeps h held =
      let kept = listing_keeps h held in
      on_ok_rule (λ x. P x.1) (t.list_pending_evaluation h t.batch_size) _ _ _ (λ e. kept)
        λ jobs. evaluate_all-keeps jobs _ _ kept
