-- ===== src/Scheduler/System.antt =====
-- The scheduled runs of internal/scheduler and of internal/job over one set of stores, in any
-- order, and what the stores have taken by then.
mod Tests
use careerpilot.Base.{◌≤◌, String, ◌≡◌, refl, false, List, [], ◌∷◌, arith, ℤ, Result}
use careerpilot.Job.Types
use careerpilot.Job.Types.{Job, Call, Store, status_eq}
use careerpilot.Job.Pipeline.{Env, process}
use careerpilot.Job.Pipeline.Once.{evaluations, FindsEvaluations, process-once}
use careerpilot.Job.Pipeline.Reads.{saves_job, process-keeps}
use careerpilot.Scheduler.Discovery
use careerpilot.Scheduler.Discovery.{Source}
use careerpilot.Scheduler.Discovery.Once.{taken, originals, FindsJobs, take_job-evaluations}
use careerpilot.Scheduler.Discovery.Once
use careerpilot.Scheduler.Evaluation
use careerpilot.Scheduler.Evaluation.Keeps
use careerpilot.Scheduler.Evaluation.{Task}

-- Any discovery runs, evaluation runs and single jobs, one after the other.
pub data History (env : Env) (sha256_hex : String → String) : List Call → Type 0 where
  idle : History env sha256_hex []
  discovered :
      {h : List Call} (sources : List Source)
      → History env sha256_hex h
      → History env sha256_hex (Discovery.run sha256_hex env.store sources h).1
  evaluated :
      {h : List Call} (list_pending : List Call → ℤ → Result (List Job)) (batch_size : ℤ)
      → History env sha256_hex h
      → History env sha256_hex
          (Evaluation.run
            (record {
              pipeline = env;
              list_pending_evaluation = list_pending;
              batch_size = batch_size;
            })
            h).1
  processed :
      {h : List Call} (j : Job)
      → History env sha256_hex h
      → History env sha256_hex (process env j h).1

-- Only the saving of a job adds to the new jobs.
originals-other :
    (store : Store) (hash : String) (c : Call) (h : List Call)
    → saves_job c ≡ false
    → originals store hash (c ∷ h) ≡ originals store hash h
originals-other store hash (Types.save_job k) h saves = cc
originals-other store hash _ h other = refl

module _ (env : Env) (sha256_hex : String → String) where
  processing_keeps :
      (hash : String) (j : Job) (h : List Call)
      → originals env.store hash h ≤ 1
      → originals env.store hash (process env j h).1 ≤ 1
  processing_keeps hash =
      process-keeps env (λ g. originals env.store hash g ≤ 1)
        λ c g other once. omega (arith, originals-other env.store hash c g other)

  -- Over an evaluation store that finds an evaluation of a job at a stage once it has taken one,
  -- any sequence of discovery runs, evaluation runs and single jobs makes the store take at most
  -- one evaluation of a job at a stage, whatever fails on the way.
  pub evaluated_once :
      (finds : FindsEvaluations env) (id stage : String) {h : List Call}
      → History env sha256_hex h
      → evaluations env id stage h ≤ 1
  evaluated_once finds id stage idle = omega arith
  evaluated_once finds id stage (discovered {h} sources before) =
      let P = λ (g : List Call). evaluations env id stage g ≤ 1 in
      Once.run-keeps sha256_hex env.store P (λ name g once. once)
        (λ source p raw g once.
          omega (arith, take_job-evaluations sha256_hex env id stage source p raw g))
        sources h (evaluated_once finds id stage before)
  evaluated_once finds id stage (evaluated {h} list_pending batch_size before) =
      let P = λ (g : List Call). evaluations env id stage g ≤ 1 in
      Keeps.run-keeps _ P (λ g once. once) (process-once env id stage finds) h
        (evaluated_once finds id stage before)
  evaluated_once finds id stage (processed {h} j before) =
      process-once env id stage finds j h (evaluated_once finds id stage before)

  -- Over a job store that finds a job by its fingerprint once it has taken one, any sequence of
  -- discovery runs, evaluation runs and single jobs makes the store take at most one job with a
  -- fingerprint that is not marked as a duplicate, from however many sources it comes and whatever
  -- fails on the way.
  pub ingested_once :
      (finds : FindsJobs env.store) (hash : String) {h : List Call}
      → History env sha256_hex h
      → originals env.store hash h ≤ 1
  ingested_once finds hash idle = omega arith
  ingested_once finds hash (discovered {h} sources before) =
      Once.run-once sha256_hex env.store hash finds sources h (ingested_once finds hash before)
  ingested_once finds hash (evaluated {h} list_pending batch_size before) =
      Keeps.run-keeps _ (λ g. originals env.store hash g ≤ 1) (λ g once. once)
        (processing_keeps hash) h (ingested_once finds hash before)
  ingested_once finds hash (processed {h} j before) =
      processing_keeps hash j h (ingested_once finds hash before)
