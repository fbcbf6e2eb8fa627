-- ===== src/Scheduler/Evaluation.antt =====
-- internal/scheduler/evaluation.go.
pub mod Counts
pub mod Keeps
use careerpilot.Base.{
  ℕ, ◌+◌, ◌<>◌, Option, none, some, List, [], ◌∷◌, ℤ, Error, wrap, Result, M, ◌>>=◌, pure, call,
  on_ok,
}
use careerpilot.Job.Types
use careerpilot.Job.Types.{Job, Score, Recommendation, apply, reject, Call}
use careerpilot.Job.Pipeline
use careerpilot.Job.Pipeline.{process}

pub record EvaluationResult : Type 0 where
  pub processed : ℕ
  pub applied : ℕ
  pub reviewed : ℕ
  pub rejected : ℕ

-- `(EvaluationResult, error)`.
abbrev pub Return : Type 0
Return = EvaluationResult × Option Error

-- `result.Processed++` and the switch.
unfoldable pub tally : EvaluationResult → Recommendation → EvaluationResult
tally r apply = record r { processed = r.processed + 1; applied = r.applied + 1 }
tally r reject = record r { processed = r.processed + 1; rejected = r.rejected + 1 }
tally r _ = record r { processed = r.processed + 1; reviewed = r.reviewed + 1 }

-- An `EvaluationTask`: the environment of its pipeline, its lister and its batch size.
pub record Task : Type 0 where
  pub pipeline : Pipeline.Env
  pub list_pending_evaluation : List Call → ℤ → Result (List Job)
  pub batch_size : ℤ

module _ (t : Task) where
  evaluate_all : List Job → EvaluationResult → M Call Return
  evaluate_all [] r = pure (r, none)
  evaluate_all (j ∷ jobs) r = do
    processed ← process t.pipeline j
    on_ok processed (λ e. (r, some (wrap ("scheduler: evaluate job " <> j.id) e)))
        λ score. evaluate_all jobs (tally r score.recommendation)

  -- `EvaluationTask.Run`.
  pub run : M Call Return
  run = do
    listed ←
        call (Types.list_pending_evaluation t.batch_size)
          (λ h. t.list_pending_evaluation h t.batch_size)
    let nothing : EvaluationResult = record {
      processed = 0;
      applied = 0;
      reviewed = 0;
      rejected = 0;
    }
    on_ok listed (λ e. (nothing, some (wrap "scheduler: list pending jobs" e)))
        λ jobs. evaluate_all jobs nothing
