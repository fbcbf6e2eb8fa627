-- ===== src/Scheduler/Discovery/Fetched.antt =====
-- From which sources a discovery run fetches, in order.
use careerpilot.Base.{
  String, ◌≡◌, refl, ◌∙◌, ap, sym, length, Result, ok, err, List, [], ◌∷◌, ◌++◌, map, arith,
}
use mathlib.Core.List.{append_assoc, append-nil}
use careerpilot.Job.Types
use careerpilot.Job.Types.{RawJob, Call, Store}
use careerpilot.Job.Dedup.{ingest}
use careerpilot.Scheduler.Discovery.{
  Source, Progress, save_ingested, take_job, take_jobs, after_fetch, count_fetched, discover,
}

-- The sources that were fetched from, the first one first.
abbrev pub fetched_sources : List Call → List String
fetched_sources [] = []
fetched_sources (Types.fetch_jobs name ∷ h) = fetched_sources h ++ (name ∷ [])
fetched_sources (_ ∷ h) = fetched_sources h

module _ (sha256_hex : String → String) (store : Store) where
  take_job-fetches_nothing :
      (source : String) (p : Progress) (raw : RawJob) (h : List Call)
      → fetched_sources (take_job sha256_hex store source p raw h).1 ≡ fetched_sources h
  unfolding take_job save_ingested ingest
  take_job-fetches_nothing source p raw h = ground arith

  take_jobs-fetches_nothing :
      (source : String) (raws : List RawJob) (p : Progress) (h : List Call)
      → fetched_sources (take_jobs sha256_hex store source raws p h).1 ≡ fetched_sources h
  unfolding take_jobs
  take_jobs-fetches_nothing source [] p h = refl
  take_jobs-fetches_nothing source (raw ∷ raws) p h =
      let (p', h') = take_job sha256_hex store source p raw h in
      take_jobs-fetches_nothing source raws p' h' ∙ take_job-fetches_nothing source p raw h

  after_fetch-fetches_nothing :
      (source : String) (p : Progress) (answer : Result (List RawJob)) (h : List Call)
      → fetched_sources (after_fetch sha256_hex store source p answer h).1 ≡ fetched_sources h
  unfolding after_fetch
  after_fetch-fetches_nothing source p (err e) h = refl
  after_fetch-fetches_nothing source p (ok raws) h =
      take_jobs-fetches_nothing source raws (count_fetched p (length raws)) h

  pub fetched_sources-discover :
      (sources : List Source) (p : Progress) (h : List Call)
      → fetched_sources (discover sha256_hex store sources p h).1
        ≡ fetched_sources h ++ map (λ s. s.name) sources
  unfolding discover
  fetched_sources-discover [] p h = sym (append-nil (fetched_sources h))
  fetched_sources-discover (s ∷ sources) p h =
      let asked = Types.fetch_jobs s.name ∷ h in
      let (p', h') = after_fetch sha256_hex store s.name p (s.fetch_jobs h) asked in
      fetched_sources-discover sources p' h'
      ∙ ap (λ names. names ++ map (λ s. s.name) sources)
          (after_fetch-fetches_nothing s.name p (s.fetch_jobs h) asked)
      ∙ append_assoc (fetched_sources h) (s.name ∷ []) (map (λ s. s.name) sources)
