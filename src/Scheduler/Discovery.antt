-- ===== src/Scheduler/Discovery.antt =====
-- internal/scheduler/discovery.go.
pub mod Accounts
pub mod Complete
pub mod Once
pub mod Fetched
pub mod Stored
pub mod Again
use careerpilot.Base.{
  ℕ, ◌+◌, String, ◌<>◌, Option, none, some, List, [], ◌∷◌, if◌then◌else◌, nat_eq, ◌==◌, string_eq,
  length, int_eq, Error, wrap, Result, ok, err, M, ◌>>=◌, pure, call, on_ok,
}
use careerpilot.Job.Types
use careerpilot.Job.Types.{Job, RawJob, Call, Store, status_eq}
use careerpilot.Job.Dedup.{ingest}

-- `job.Source`.
pub record Source : Type 0 where
  pub name : String
  pub fetch_jobs : List Call → Result (List RawJob)

pub record DiscoveryResult : Type 0 where
  pub fetched : ℕ
  pub ingested : ℕ
  pub duplicates : ℕ

-- `result` and `firstErr`.
abbrev pub Progress : Type 0
Progress = DiscoveryResult × Option Error

-- `if firstErr == nil { firstErr = ... }`
abbrev pub note : Progress → Error → Progress
note (result, none) e = (result, some e)
note (result, some first) e = (result, some first)

abbrev pub count_duplicate : Progress → Job → Progress
count_duplicate (result, first) j = (
  if j.status == Types.duplicate
      then record result { duplicates = result.duplicates + 1 }
      else result,
  first,
)

abbrev pub count_ingested : Progress → Progress
count_ingested (result, first) = (record result { ingested = result.ingested + 1 }, first)

abbrev pub count_fetched : Progress → ℕ → Progress
count_fetched (result, first) n = (record result { fetched = result.fetched + n }, first)

module _ (sha256_hex : String → String) (store : Store) where
  unfoldable pub after_save : String → Progress → Result Job → Progress
  after_save source p (ok saved) = count_ingested p
  after_save source p (err e) = note p (wrap ("scheduler: save job from " <> source) e)

  unfoldable pub save_ingested : String → Progress → Job → M Call Progress
  save_ingested source p j = do
    saved ← call (Types.save_job j) (λ h. store.save_job h j)
    pure (after_save source (count_duplicate p j) saved)

  -- The body of the inner loop.
  unfoldable pub take_job : String → Progress → RawJob → M Call Progress
  take_job source p raw = do
    ingested ← ingest sha256_hex store source raw
    on_ok ingested (λ e. note p (wrap ("scheduler: ingest from " <> source) e))
        λ j. save_ingested source p j

  unfoldable pub take_jobs : String → List RawJob → Progress → M Call Progress
  take_jobs source [] p = pure p
  take_jobs source (raw ∷ raws) p = do p' ← take_job source p raw; take_jobs source raws p'

  -- The body of the outer loop, on the fetched jobs.
  unfoldable pub after_fetch : String → Progress → Result (List RawJob) → M Call Progress
  after_fetch source p (err e) = pure (note p (wrap ("scheduler: source " <> source) e))
  after_fetch source p (ok raws) = take_jobs source raws (count_fetched p (length raws))

  unfoldable pub discover : List Source → Progress → M Call Progress
  discover [] p = pure p
  discover (s ∷ sources) p = do
    fetched ← call (Types.fetch_jobs s.name) s.fetch_jobs
    p' ← after_fetch s.name p fetched
    discover sources p'

  -- `DiscoveryTask.Run`.
  unfoldable pub run : List Source → M Call Progress
  run sources = discover sources (record { fetched = 0; ingested = 0; duplicates = 0 }, none)
