-- ===== src/Scheduler/Discovery/Stored.antt =====
-- What a discovery run without an error has put into the store.
use careerpilot.Base.{◌≤◌, ◌<◌, String, ◌≡◌, none, some, List, [], ◌∷◌, map, arith, length, All, ok}
use careerpilot.Job.Types
use careerpilot.Job.Types.{RawJob, Call, Store}
use careerpilot.Job.Normalize.{normalize}
use careerpilot.Job.Dedup.{ingest}
use careerpilot.Scheduler.Discovery.{
  Source, Progress, after_save, save_ingested, take_job, take_jobs, after_fetch, count_fetched,
  discover,
}
use careerpilot.Scheduler.Discovery.Complete.{take_jobs-Accounts, discover-Accounts}
use careerpilot.Scheduler.Discovery.Once.{take_jobs-keeps, discover-keeps, taken}

-- A board that lists the same postings at every fetch.
abbrev pub Board : Type 0
Board = String × List RawJob

abbrev pub steady : Board → Source
steady (name, raws) = record { name = name; fetch_jobs = λ h. ok raws }

module _ (sha256_hex : String → String) (store : Store) where
  abbrev pub hash_of : String → RawJob → String
  hash_of source raw = (normalize sha256_hex source raw).normalized_hash

  -- A posting that is taken without an error is in the store.
  take_job-taken :
      (source : String) (p : Progress) (raw : RawJob) (h : List Call)
      → let (p', h') = take_job sha256_hex store source p raw h in
        p'.1 ≡ none → 0 < taken store (hash_of source raw) h'
  unfolding take_job save_ingested after_save ingest
  take_job-taken source (result, none) raw h fine = ground arith
  take_job-taken source (result, some e) raw h fine = ground arith

  pub take_job-keeps :
      (hash source : String) (p : Progress) (raw : RawJob) (h : List Call)
      → taken store hash h ≤ taken store hash (take_job sha256_hex store source p raw h).1
  unfolding take_job save_ingested ingest
  take_job-keeps hash source p raw h = ground arith

  -- The postings are in the store.
  abbrev pub Stored : String → List RawJob → List Call → Type 0
  Stored source raws h = All (λ raw. 0 < taken store (hash_of source raw) h) raws

  pub Stored-more :
      (source : String) (raws : List RawJob) (h h' : List Call)
      → ((hash : String) → taken store hash h ≤ taken store hash h')
      → Stored source raws h
      → Stored source raws h'
  Stored-more source [] h h' more stored = tt
  Stored-more source (raw ∷ raws) h h' more (here, stored) =
      (omega (arith, more (hash_of source raw)), Stored-more source raws h h' more stored)

  pub take_jobs-more :
      (source : String) (raws : List RawJob) (p : Progress) (h : List Call) (hash : String)
      → taken store hash h ≤ taken store hash (take_jobs sha256_hex store source raws p h).1
  take_jobs-more source raws p h hash =
      take_jobs-keeps sha256_hex store (λ g. taken store hash h ≤ taken store hash g)
        (λ name g more. more) (λ s q raw g more. omega (arith, take_job-keeps hash s q raw g))
        source raws p h (omega arith)

  discover-more :
      (sources : List Source) (p : Progress) (h : List Call) (hash : String)
      → taken store hash h ≤ taken store hash (discover sha256_hex store sources p h).1
  discover-more sources p h hash =
      discover-keeps sha256_hex store (λ g. taken store hash h ≤ taken store hash g)
        (λ name g more. more) (λ s q raw g more. omega (arith, take_job-keeps hash s q raw g))
        sources p h (omega arith)

  take_jobs-Stored :
      (source : String) (raws : List RawJob) (p : Progress) (h : List Call)
      → let (p', h') = take_jobs sha256_hex store source raws p h in
        p'.1 ≡ none → Stored source raws h'
  unfolding take_jobs
  take_jobs-Stored source [] p h fine = tt
  take_jobs-Stored source (raw ∷ raws) p h fine =
      let (p', h') = take_job sha256_hex store source p raw h in
      let before = (take_jobs-Accounts sha256_hex store source raws p' h').silent_before fine in
      let here = take_job-taken source p raw h before in
      let more = take_jobs-more source raws p' h' (hash_of source raw) in
      (omega arith, take_jobs-Stored source raws p' h' fine)

  abbrev pub AllStored : List Board → List Call → Type 0
  AllStored boards h = All (λ b. Stored b.0 b.1 h) boards

  pub AllStored-more :
      (boards : List Board) (h h' : List Call)
      → ((hash : String) → taken store hash h ≤ taken store hash h')
      → AllStored boards h
      → AllStored boards h'
  AllStored-more [] h h' more stored = tt
  AllStored-more ((name, raws) ∷ boards) h h' more (here, stored) =
      (Stored-more name raws h h' more here, AllStored-more boards h h' more stored)

  pub discover-AllStored :
      (boards : List Board) (p : Progress) (h : List Call)
      → let (p', h') = discover sha256_hex store (map steady boards) p h in
        p'.1 ≡ none → AllStored boards h'
  unfolding discover after_fetch
  discover-AllStored [] p h fine = tt
  discover-AllStored ((name, raws) ∷ boards) p h fine =
      let asked = Types.fetch_jobs name ∷ h in
      let (p', h') = take_jobs sha256_hex store name raws (count_fetched p (length raws)) asked in
      let (n, a) = discover-Accounts sha256_hex store (map steady boards) p' h' in
      let here =
        take_jobs-Stored name raws (count_fetched p (length raws)) asked (a.silent_before fine) in
      (
        Stored-more name raws h' (discover sha256_hex store (map steady boards) p' h').1
            (discover-more (map steady boards) p' h') here,
        discover-AllStored boards p' h' fine,
      )
