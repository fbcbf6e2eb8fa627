-- ===== src/Scheduler/System/Tests.antt =====
-- Two discovery runs over a board that lists a posting twice, and two evaluation runs.
use careerpilot.Base.{
  ◌≤◌, ◌≢◌, ◌⊎◌, map, string_eq, int_eq, nat_eq, String, ◌≡◌, refl, none, List, [], ◌∷◌, arith, ℤ,
  pos, Result, ok,
}
use careerpilot.Job.Types
use careerpilot.Job.Types.{Job, RawJob, Call}
use careerpilot.Job.Memory.{raw, sha, find_saved, store, find_evaluation, env}
use careerpilot.Job.Normalize.{normalize}
use careerpilot.Job.Pipeline.{Env}
use careerpilot.Job.Pipeline.Once.{evaluations, FindsEvaluations}
use careerpilot.Scheduler.Discovery.{
  Source, run, discover, after_fetch, take_jobs, take_job, save_ingested, after_save,
}
use careerpilot.Scheduler.Discovery.Again.{rediscovery_adds_nothing}
use careerpilot.Scheduler.Discovery.Stored.{Board, steady}
use careerpilot.Job.Dedup.{ingest}
use careerpilot.Scheduler.Discovery.Once.{taken, originals, FindsJobs}
use careerpilot.Scheduler.System.{
  History, idle, discovered, evaluated, evaluated_once, ingested_once,
}

abbrev boards : List Source
boards = record { name = "greenhouse"; fetch_jobs = λ h. ok (raw ∷ raw ∷ []) } ∷ []

abbrev posting : Job
posting = normalize sha "greenhouse" raw

abbrev services : Env
services = env (pos 100)

list_pending : List Call → ℤ → Result (List Job)
list_pending h limit = ok (posting ∷ posting ∷ [])

two_rounds : (h : List Call) × History services sha h
two_rounds = (
  _,
  evaluated list_pending (pos 10)
      (discovered boards (evaluated list_pending (pos 10) (discovered boards idle))),
)

find_saved-taken :
    (hash : String) (h : List Call) → find_saved h hash ≡ none → taken store hash h ≡ 0
unfolding find_saved store
find_saved-taken hash [] missing = refl
find_saved-taken hash (Types.save_job k ∷ h) missing = ground (arith, find_saved-taken hash h)
find_saved-taken hash (_ ∷ h) missing = find_saved-taken hash h missing

services-FindsJobs : FindsJobs services.store
unfolding env store
services-FindsJobs h hash missing = find_saved-taken hash h (ground arith)

find_evaluation-evaluations :
    (id stage : String) (h : List Call)
    → find_evaluation h id stage ≡ none
    → evaluations services id stage h ≡ 0
unfolding find_evaluation env
find_evaluation-evaluations id stage [] missing = refl
find_evaluation-evaluations id stage (Types.save_evaluation e ∷ h) missing =
    ground (arith, find_evaluation-evaluations id stage h)
find_evaluation-evaluations id stage (_ ∷ h) missing =
    find_evaluation-evaluations id stage h missing

services-FindsEvaluations : FindsEvaluations services
unfolding env
services-FindsEvaluations h id stage missing = find_evaluation-evaluations id stage h (ground arith)

evaluated_once_example : evaluations services posting.id "triage" two_rounds.0 ≤ 1
evaluated_once_example =
    evaluated_once services sha services-FindsEvaluations posting.id "triage" two_rounds.1

ingested_once_example : originals services.store posting.normalized_hash two_rounds.0 ≤ 1
ingested_once_example =
    ingested_once services sha services-FindsJobs posting.normalized_hash two_rounds.1

abbrev listed : List Board
listed = ("greenhouse", raw ∷ raw ∷ []) ∷ []

first_run-fine : (run sha store (map steady listed) []).0.1 ≡ none
unfolding run discover after_fetch take_jobs take_job save_ingested after_save ingest store
    string_eq normalize
first_run-fine = refl

store-FindsJobs : FindsJobs store
unfolding store
store-FindsJobs h hash missing = find_saved-taken hash h (ground arith)

rediscovery_adds_nothing_example :
    let h₁ = (run sha store (map steady listed) []).1 in
    let ((second, first_err), h₂) = run sha store (map steady listed) h₁ in
    ((hash : String) → originals store hash h₂ ≡ originals store hash h₁)
    × ((first_err ≢ none) ⊎ (second.duplicates ≡ second.fetched))
rediscovery_adds_nothing_example =
    rediscovery_adds_nothing sha store store-FindsJobs listed [] first_run-fine
