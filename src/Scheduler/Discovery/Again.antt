-- ===== src/Scheduler/Discovery/Again.antt =====
-- A second discovery run over boards that list what they listed before.
use careerpilot.Base.{
  ℕ, ◌+◌, ◌<◌, String, ◌≡◌, refl, ◌∙◌, ◌≢◌, ◌⊎◌, inl, inr, none, some, List, [], ◌∷◌, map, arith,
  Option-cases, length,
}
use careerpilot.Job.Types
use careerpilot.Job.Types.{RawJob, Call, Store, status_eq}
use careerpilot.Job.Normalize.{normalize}
use careerpilot.Job.Dedup.{ingest}
use careerpilot.Scheduler.Discovery.{
  DiscoveryResult, Progress, after_save, save_ingested, take_job, take_jobs, after_fetch,
  count_fetched, discover, run,
}
use careerpilot.Scheduler.Discovery.Complete.{take_jobs-Accounts, discover-Accounts}
use careerpilot.Scheduler.Discovery.Once.{taken, originals, FindsJobs}
use careerpilot.Scheduler.Discovery.Stored.{
  hash_of, Stored, AllStored, Board, steady, take_job-keeps, Stored-more, take_jobs-more,
  AllStored-more, discover-AllStored,
}

module _ (sha256_hex : String → String) (store : Store) where
  -- Nothing new was saved, and without an error as many duplicates as postings were counted.
  record Repeats (n_jobs n_fetched : ℕ) (p : Progress) (h : List Call) (x : Progress × List Call)
      : Type 0 where
    nothing_new : (hash : String) → originals store hash x.1 ≡ originals store hash h
    repeated : x.0.1 ≡ none → x.0.0.duplicates ≡ n_jobs + p.0.duplicates
    fetched_now : x.0.0.fetched ≡ n_fetched + p.0.fetched

  module _ (finds : FindsJobs store) where
    take_job-Repeats :
        (source : String) (p : Progress) (raw : RawJob) (h : List Call)
        → 0 < taken store (hash_of sha256_hex store source raw) h
        → Repeats 1 0 p h (take_job sha256_hex store source p raw h)
    unfolding take_job save_ingested after_save ingest status_eq
    take_job-Repeats source (result, none) raw h stored =
        let j = normalize sha256_hex source raw in
        let h' = Types.find_by_source_job_id j.source j.source_job_id ∷ h in
        record {
          nothing_new =
              λ hash. ground (arith, finds h j.normalized_hash, finds h' j.normalized_hash);
          repeated = λ fine. ground (arith, finds h j.normalized_hash, finds h' j.normalized_hash);
          fetched_now = ground arith;
        }
    take_job-Repeats source (result, some e) raw h stored =
        let j = normalize sha256_hex source raw in
        let h' = Types.find_by_source_job_id j.source j.source_job_id ∷ h in
        record {
          nothing_new =
              λ hash. ground (arith, finds h j.normalized_hash, finds h' j.normalized_hash);
          repeated = λ fine. absurd (ground arith);
          fetched_now = ground arith;
        }

    take_jobs-Repeats :
        (source : String) (raws : List RawJob) (p : Progress) (h : List Call)
        → Stored sha256_hex store source raws h
        → Repeats (length raws) 0 p h (take_jobs sha256_hex store source raws p h)
    unfolding take_jobs
    take_jobs-Repeats source [] p h stored = record {
      nothing_new = λ hash. refl;
      repeated = λ fine. omega arith;
      fetched_now = omega arith;
    }
    take_jobs-Repeats source (raw ∷ raws) p h (here, stored) =
        let (p', h') = take_job sha256_hex store source p raw h in
        let now = take_job-Repeats source p raw h here in
        let kept =
          Stored-more sha256_hex store source raws h h'
            (λ hash. take_job-keeps sha256_hex store hash source p raw h) stored in
        let rest = take_jobs-Repeats source raws p' h' kept in
        let quiet = (take_jobs-Accounts sha256_hex store source raws p' h').silent_before in
        record {
          nothing_new = λ hash. rest.nothing_new hash ∙ now.nothing_new hash;
          repeated = λ fine. omega (arith, rest.repeated fine, now.repeated (quiet fine));
          fetched_now = omega (arith, rest.fetched_now, now.fetched_now);
        }

    discover-Repeats :
        (boards : List Board) (p : Progress) (h : List Call)
        → AllStored sha256_hex store boards h
        → (n : ℕ) × Repeats n n p h (discover sha256_hex store (map steady boards) p h)
    unfolding discover after_fetch
    discover-Repeats [] p h stored = (
      0,
      record {
        nothing_new = λ hash. refl;
        repeated = λ fine. omega arith;
        fetched_now = omega arith;
      },
    )
    discover-Repeats ((name, raws) ∷ boards) p h (here, stored) =
        let asked = Types.fetch_jobs name ∷ h in
        let (p', h') = take_jobs sha256_hex store name raws (count_fetched p (length raws)) asked in
        let now = take_jobs-Repeats name raws (count_fetched p (length raws)) asked here in
        let kept =
          AllStored-more sha256_hex store boards h h'
            (take_jobs-more sha256_hex store name raws (count_fetched p (length raws)) asked)
            stored in
        let (n, rest) = discover-Repeats boards p' h' kept in
        let (m, a) = discover-Accounts sha256_hex store (map steady boards) p' h' in
        (
          length raws + n,
          record {
            nothing_new = λ hash. rest.nothing_new hash ∙ now.nothing_new hash;
            repeated =
                λ fine. omega (arith, rest.repeated fine, now.repeated (a.silent_before fine));
            fetched_now = omega (arith, rest.fetched_now, now.fetched_now);
          },
        )

    -- Over a job store that finds a job by its fingerprint once it has taken one, and boards that
    -- list the same postings each time, a discovery run after one that ended without an error adds
    -- no job that is not marked as a duplicate, and counts every fetched posting as a duplicate
    -- unless it reports an error.
    pub rediscovery_adds_nothing :
        (boards : List Board) (h : List Call)
        → (run sha256_hex store (map steady boards) h).0.1 ≡ none
        → let h₁ = (run sha256_hex store (map steady boards) h).1 in
          let ((second, first_err), h₂) = run sha256_hex store (map steady boards) h₁ in
          ((hash : String) → originals store hash h₂ ≡ originals store hash h₁)
          × ((first_err ≢ none) ⊎ (second.duplicates ≡ second.fetched))
    unfolding run
    rediscovery_adds_nothing boards h fine =
        let nothing : DiscoveryResult = record { fetched = 0; ingested = 0; duplicates = 0 } in
        let stored = discover-AllStored sha256_hex store boards (nothing, none) h fine in
        let (p₁, h₁) = discover sha256_hex store (map steady boards) (nothing, none) h in
        let (n, again) = discover-Repeats boards (nothing, none) h₁ stored in
        (
          again.nothing_new,
          elim (Option-cases
              (discover sha256_hex store (map steady boards) (nothing, none) h₁).0.1) [
                | inl quiet ↦ inr (omega (arith, again.repeated quiet, again.fetched_now))
                | inr (e, failed) ↦ inl (λ quiet. absurd (ground arith))
              ],
        )
