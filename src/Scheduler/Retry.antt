-- ===== src/Scheduler/Retry.antt =====
-- internal/scheduler/scheduler.go and retry.go: bounded retries.
pub mod Bounded
pub mod Success
use careerpilot.Base.{
  ℕ, zero, suc, String, ◌<>◌, Option, none, some, List, if◌then◌else◌, Eq, ℤ, pos, pos_part, leb_ℤ,
  Error, error_text, M, ◌>>=◌, pure, call, Time,
}

pub data TaskType : Type 0 where
  job_discovery job_evaluation resume_proposal : TaskType

pub TaskType-discrete : Discrete TaskType
TaskType-discrete = hlevel

instance unfoldable pub task_type_eq : Eq TaskType
unfolding TaskType-discrete
task_type_eq = record { dec = TaskType-discrete }

pub data RunStatus : Type 0 where
  succeeded failed dead_letter skipped : RunStatus

pub RunStatus-discrete : Discrete RunStatus
RunStatus-discrete = hlevel

instance unfoldable pub run_status_eq : Eq RunStatus
unfolding RunStatus-discrete
run_status_eq = record { dec = RunStatus-discrete }

pub record Run : Type 0 where
  pub id : String
  pub task : TaskType
  pub status : RunStatus
  pub attempt : ℕ
  pub detail : String
  pub started_at : Time
  pub finished_at : Time

pub data Decision : Type 0 where
  retry give_up : Decision

-- `RetryPolicy.Decide`, for a policy with this `MaxRetries`.
unfoldable pub decide : ℤ → ℕ → Decision
decide max_retries attempt_number =
    if leb_ℤ (pos attempt_number) max_retries then retry else give_up

pub data Call : Type 0 where
  new_id read_clock : Call
  run_attempt : ℕ → Call

pub record Env : Type 0 where
  pub new_id : List Call → String
  pub now : List Call → Time
  pub fn : List Call → ℕ → Option Error

module _ (env : Env) (max_retries : ℤ) (task : TaskType) where
  finished : RunStatus → ℕ → String → Time → Time → M Call (Option Run)
  finished status attempt detail start finish = do
    id ← call new_id env.new_id
    pure (
        some (record {
          id = id;
          task = task;
          status = status;
          attempt = attempt;
          detail = detail;
          started_at = start;
          finished_at = finish;
        }))

  -- The end of a round: `rest` is the loop's next round.
  after_attempt : ℕ → Time → Time → Option Error → M Call (Option Run) → M Call (Option Run)
  after_attempt attempt start finish none rest = finished succeeded attempt "" start finish
  after_attempt attempt start finish (some e) rest = elim (decide max_retries attempt) [
    | give_up ↦ finished dead_letter attempt ("exhausted retries: " <> error_text e) start finish
    | retry ↦ rest
  ]

  -- The loop of `Execute`, after so many attempts. `none` says that the fuel has run out.
  execute_from : ℕ → ℕ → M Call (Option Run)
  execute_from zero made = pure none
  execute_from (suc fuel) made = do
    let attempt = suc made
    start ← call read_clock env.now
    failure ← call (run_attempt attempt) (λ h. env.fn h attempt)
    finish ← call read_clock env.now
    after_attempt attempt start finish failure (execute_from fuel attempt)

  -- `MaxRetries + 1` rounds are enough, and one if `MaxRetries` is negative.
  pub execute : M Call (Option Run)
  execute = execute_from (suc (pos_part max_retries)) 0
