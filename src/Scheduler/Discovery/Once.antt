-- ===== src/Scheduler/Discovery/Once.antt =====
-- That a posting is ingested as a new job at most once.
use careerpilot.Base.{
  ℕ, suc, ◌≤◌, String, ◌≡◌, Bool, true, false, not, ◌&&◌, none, List, [], ◌∷◌, arith, if◌then◌else◌,
  nat_eq, ◌==◌, string_eq, int_eq, Result, ok, err,
}
use careerpilot.Job.Types
use careerpilot.Job.Types.{Job, RawJob, Call, Store, status_eq}
use careerpilot.Job.Normalize.{normalize}
use careerpilot.Job.Dedup.{ingest}
use careerpilot.Job.Pipeline.{Env}
use careerpilot.Job.Pipeline.Once.{evaluations}
use careerpilot.Scheduler.Discovery.{
  Source, Progress, save_ingested, take_job, take_jobs, after_fetch, discover, run,
}

abbrev accepted : Result Job → Bool
accepted (ok j) = true
accepted (err e) = false

-- The jobs with a fingerprint that the store has taken.
abbrev pub taken : Store → String → List Call → ℕ
taken store hash [] = 0
taken store hash (Types.save_job k ∷ h) =
    let rest = taken store hash h in
    if k.normalized_hash == hash && accepted (store.save_job h k) then suc rest else rest
taken store hash (_ ∷ h) = taken store hash h

-- Those of them that are no duplicates.
abbrev pub originals : Store → String → List Call → ℕ
originals store hash [] = 0
originals store hash (Types.save_job k ∷ h) =
    let rest = originals store hash h in
    if k.normalized_hash == hash
      && not (k.status == Types.duplicate)
      && accepted (store.save_job h k)
    then suc rest
    else rest
originals store hash (_ ∷ h) = originals store hash h

-- A job store that finds a job by its fingerprint once it has taken one; it may fail instead.
abbrev pub FindsJobs : Store → Type 0
FindsJobs store =
    (h : List Call) (hash : String)
    → store.find_by_normalized_hash h hash ≡ ok none
    → taken store hash h ≡ 0

-- A discovery run keeps what each fetch and each posting keeps.
module _ (sha256_hex : String → String) (store : Store) (P : List Call → Type 0)
    (fetch_keeps : (name : String) (h : List Call) → P h → P (Types.fetch_jobs name ∷ h))
    (posting_keeps : (source : String) (p : Progress) (raw : RawJob) (h : List Call)
      → P h
      → P (take_job sha256_hex store source p raw h).1) where
  pub take_jobs-keeps :
      (source : String) (raws : List RawJob) (p : Progress) (h : List Call)
      → P h
      → P (take_jobs sha256_hex store source raws p h).1
  unfolding take_jobs
  take_jobs-keeps source [] p h held = held
  take_jobs-keeps source (raw ∷ raws) p h held =
      let (p', h') = take_job sha256_hex store source p raw h in
      take_jobs-keeps source raws p' h' (posting_keeps source p raw h held)

  after_fetch-keeps :
      (source : String) (p : Progress) (answer : Result (List RawJob)) (h : List Call)
      → P h
      → P (after_fetch sha256_hex store source p answer h).1
  unfolding after_fetch
  after_fetch-keeps source p (err e) h held = held
  after_fetch-keeps source p (ok raws) h held = take_jobs-keeps source raws _ h held

  pub discover-keeps :
      (sources : List Source) (p : Progress) (h : List Call)
      → P h
      → P (discover sha256_hex store sources p h).1
  unfolding discover
  discover-keeps [] p h held = held
  discover-keeps (s ∷ sources) p h held =
      let (p', h') =
        after_fetch sha256_hex store s.name p (s.fetch_jobs h) (Types.fetch_jobs s.name ∷ h) in
      discover-keeps sources p' h'
        (after_fetch-keeps s.name p (s.fetch_jobs h) _ (fetch_keeps s.name h held))

  pub run-keeps :
      (sources : List Source) (h : List Call) → P h → P (run sha256_hex store sources h).1
  unfolding run
  run-keeps sources h held = discover-keeps sources _ h held

-- Every new job is among the taken ones.
originals-le-taken :
    (store : Store) (hash : String) (h : List Call) → originals store hash h ≤ taken store hash h
originals-le-taken store hash [] = omega arith
originals-le-taken store hash (Types.save_job k ∷ h) =
    ground (arith, originals-le-taken store hash h)
originals-le-taken store hash (_ ∷ h) = originals-le-taken store hash h

module _ (sha256_hex : String → String) (store : Store) (hash : String)
    (finds : FindsJobs store) where
  take_job-once :
      (source : String) (p : Progress) (raw : RawJob) (h : List Call)
      → originals store hash h ≤ 1
      → originals store hash (take_job sha256_hex store source p raw h).1 ≤ 1
  unfolding take_job save_ingested ingest
  take_job-once source p raw h once =
      let j = normalize sha256_hex source raw in
      let h' = Types.find_by_source_job_id j.source j.source_job_id ∷ h in
      ground (arith, finds h hash, finds h' hash, originals-le-taken store hash h)

  pub run-once :
      (sources : List Source) (h : List Call)
      → originals store hash h ≤ 1
      → originals store hash (run sha256_hex store sources h).1 ≤ 1
  run-once =
      run-keeps sha256_hex store (λ h. originals store hash h ≤ 1) (λ name h once. once)
        take_job-once

-- A posting that is taken is not evaluated.
pub take_job-evaluations :
    (sha256_hex : String → String) (env : Env) (id stage source : String) (p : Progress)
    (raw : RawJob) (h : List Call)
    → evaluations env id stage (take_job sha256_hex env.store source p raw h).1
      ≡ evaluations env id stage h
unfolding take_job save_ingested ingest
take_job-evaluations sha256_hex env id stage source p raw h = ground arith
