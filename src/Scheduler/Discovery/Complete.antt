-- ===== src/Scheduler/Discovery/Complete.antt =====
-- A discovery run visits every source, and loses no job silently.
use careerpilot.Base.{
  map, ◌++◌, ℕ, ◌+◌, ◌≤◌, String, ◌≡◌, refl, ◌≢◌, ◌⊎◌, inl, inr, none, some, List, [], ◌∷◌, arith,
  Option-cases, length, on_ok_cases, Result, ok, err,
}
use careerpilot.Job.Types
use careerpilot.Job.Types.{Job, RawJob, Call, Store}
use careerpilot.Job.Dedup.{ingest}
use careerpilot.Scheduler.Discovery.{
  count_duplicate, Source, DiscoveryResult, Progress, after_save, save_ingested, take_job,
  take_jobs, after_fetch, discover, run,
}
use careerpilot.Scheduler.Discovery.Fetched.{fetched_sources, fetched_sources-discover}
use careerpilot.Scheduler.Discovery.Accounts.{
  fetches, saves, Accounts, delivered, from_quiet, note-Accounts, Accounts-none, Accounts-then,
  fetched_more,
}

module _ (sha256_hex : String → String) (store : Store) where
  ingest_quiet :
      (source : String) (raw : RawJob) (h : List Call)
      → let h' = (ingest sha256_hex store source raw h).1 in
        (fetches h' ≡ fetches h) × (saves h' ≡ saves h)
  unfolding ingest
  ingest_quiet source raw h = ground arith

  after_save-Accounts :
      (source : String) (p : Progress) (j : Job) (saved : Result Job) (h : List Call)
      → Accounts 0 0 1 p h
          (after_save sha256_hex store source (count_duplicate p j) saved, Types.save_job j ∷ h)
  unfolding after_save
  after_save-Accounts source (result, first) j (ok saved) h = record {
    fetched_from = omega arith;
    fetched_sum = ground arith;
    saved_least = ground arith;
    saved_most = omega arith;
    ingested_most = ground arith;
    silent_before = λ e. e;
    silent = λ e. ground arith;
  }
  after_save-Accounts source (result, none) j (err e) h = record {
    fetched_from = omega arith;
    fetched_sum = ground arith;
    saved_least = ground arith;
    saved_most = omega arith;
    ingested_most = ground arith;
    silent_before = λ e. refl;
    silent = λ e. absurd (ground arith);
  }
  after_save-Accounts source (result, some first) j (err e) h = record {
    fetched_from = omega arith;
    fetched_sum = ground arith;
    saved_least = ground arith;
    saved_most = omega arith;
    ingested_most = ground arith;
    silent_before = λ e. e;
    silent = λ e. absurd (ground arith);
  }

  pub take_job-Accounts :
      (source : String) (p : Progress) (raw : RawJob) (h : List Call)
      → Accounts 0 0 1 p h (take_job sha256_hex store source p raw h)
  unfolding take_job save_ingested
  take_job-Accounts source p raw h =
      let (ingested, h') = ingest sha256_hex store source raw h in
      let (f, s) = ingest_quiet source raw h in
      on_ok_cases {B = Progress} (λ x. Accounts 0 0 1 p h x) ingested _ _ h'
        (λ e eq. note-Accounts p _ 0 1 h h' (omega (arith, f)) s)
        λ j eq. from_quiet p f s (after_save-Accounts source p j _ h')

  pub take_jobs-Accounts :
      (source : String) (raws : List RawJob) (p : Progress) (h : List Call)
      → Accounts 0 0 (length raws) p h (take_jobs sha256_hex store source raws p h)
  unfolding take_jobs
  take_jobs-Accounts source [] p h = Accounts-none p h
  take_jobs-Accounts source (raw ∷ raws) p h =
      let (p', h') = take_job sha256_hex store source p raw h in
      Accounts-then 0 0 0 0 1 (length raws) (omega arith) (omega arith) (omega arith)
        (take_job-Accounts source p raw h) (take_jobs-Accounts source raws p' h')

  pub after_fetch-Accounts :
      (source : String) (p : Progress) (answer : Result (List RawJob)) (h : List Call)
      → Accounts 1
          (delivered answer)
          (delivered answer)
          p
          h
          (after_fetch sha256_hex store source p answer (Types.fetch_jobs source ∷ h))
  unfolding after_fetch
  after_fetch-Accounts source p (err e) h = note-Accounts p _ 1 0 h _ (omega arith) refl
  after_fetch-Accounts source p (ok raws) h =
      fetched_more p (length raws) (take_jobs-Accounts source raws _ _)

  pub discover-Accounts :
      (sources : List Source) (p : Progress) (h : List Call)
      → (n : ℕ) × Accounts (length sources) n n p h (discover sha256_hex store sources p h)
  unfolding discover
  discover-Accounts [] p h = (0, Accounts-none p h)
  discover-Accounts (s ∷ sources) p h =
      let answer = s.fetch_jobs h in
      let k = delivered answer in
      let (p', h') = after_fetch sha256_hex store s.name p answer (Types.fetch_jobs s.name ∷ h) in
      let (n, a) = discover-Accounts sources p' h' in
      (
        k + n,
        Accounts-then 1 (length sources) k n k n (omega arith) refl refl
            (after_fetch-Accounts s.name p answer h) a,
      )

  -- A discovery run fetches from every source once, in their order and from no other, whatever
  -- fails before; it saves at most as many
  -- jobs as were fetched, and counts as ingested at most the saves that it made; and when it
  -- reports no error, every fetched job has been counted as ingested.
  pub discovery_complete :
      (sources : List Source) (h : List Call)
      → let ((result, first_err), h') = run sha256_hex store sources h in
        (fetched_sources h' ≡ fetched_sources h ++ map (λ s. s.name) sources)
        × (saves h' ≤ result.fetched + saves h)
        × (saves h + result.ingested ≤ saves h')
        × ((first_err ≢ none) ⊎ (result.ingested ≡ result.fetched))
  unfolding run
  discovery_complete sources h =
      let nothing : DiscoveryResult = record { fetched = 0; ingested = 0; duplicates = 0 } in
      let (n, a) = discover-Accounts sources (nothing, none) h in
      (
        fetched_sources-discover sha256_hex store sources (nothing, none) h,
        omega (arith, a.saved_most, a.fetched_sum),
        omega (arith, a.saved_least),
        elim (Option-cases (discover sha256_hex store sources (nothing, none) h).0.1) [
          | inl fine ↦ inr (omega (arith, a.silent fine, a.fetched_sum))
          | inr (e, failed) ↦ inl (λ fine. absurd (ground arith))
        ],
      )
