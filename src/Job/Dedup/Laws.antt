-- ===== src/Job/Dedup/Laws.antt =====
-- Deduplication reads and never writes, prefers the source's id, and recognises a saved posting.
use careerpilot.Base.{
  String, ◌≡◌, ◌≢◌, ◌⊎◌, inl, inr, true, Option, none, some, List, ◌∷◌, arith, nat_eq, ◌==◌,
  string_eq, Bool-cases, Option-cases, any, int_eq, ok,
}
use careerpilot.Job.Types
use careerpilot.Job.Types.{normalized, duplicate, Job, RawJob, Call, Store}
use careerpilot.Job.Normalize.{normalize}
use careerpilot.Job.Dedup.{deduplicate, ingest}

-- The lookups that `deduplicate` may make, newest first.
abbrev pub source_lookup : Job → Call
source_lookup j = Types.find_by_source_job_id j.source j.source_job_id

abbrev hash_lookup : Job → Call
hash_lookup j = Types.find_by_normalized_hash j.normalized_hash

-- Without a source's id only the fingerprint is looked up; with one, it is looked up first and the
-- fingerprint at most after it; nothing else is called.
pub deduplicate_calls :
    (store : Store) (j : Job) (h : List Call)
    → let calls = (deduplicate store j h).1 in
      ((j.source_job_id ≡ "") × (calls ≡ hash_lookup j ∷ h))
      ⊎ ((j.source_job_id ≢ "")
          × ((calls ≡ source_lookup j ∷ h) ⊎ (calls ≡ hash_lookup j ∷ source_lookup j ∷ h)))
unfolding deduplicate
deduplicate_calls store j h = ground arith

-- A job found by the source's id is the answer, and the fingerprint is not looked up.
pub deduplicate_by_source :
    (store : Store) (j existing : Job) (h : List Call)
    → j.source_job_id ≢ ""
    → store.find_by_source_job_id h j.source j.source_job_id ≡ ok (some existing)
    → deduplicate store j h ≡ (ok (some existing), source_lookup j ∷ h)
unfolding deduplicate
deduplicate_by_source store j existing h id found = ground arith

-- A store that answers every lookup, and finds some job by the fingerprint of any job saved in it.
pub record Remembers (store : Store) : Type 0 where
  pub source_answers :
      (h : List Call) (source id : String)
      → (o : Option Job) × (store.find_by_source_job_id h source id ≡ ok o)
  pub hash_found :
      (h : List Call) (k : Job)
      → any (Types.is_save_of k.normalized_hash) h ≡ true
      → (x : Job) × (store.find_by_normalized_hash h k.normalized_hash ≡ ok (some x))

-- What an ingestion makes of a posting that is found again.
abbrev pub is_duplicate_of : Job → Job → Job
is_duplicate_of j existing = record j { status = duplicate; duplicate_of_id = existing.id }

module _ (store : Store) (r : Remembers store) where
  deduplicate_finds :
      (j : Job) (h : List Call)
      → any (Types.is_save_of j.normalized_hash) h ≡ true
      → (existing : Job) × ((deduplicate store j h).0 ≡ ok (some existing))
  unfolding deduplicate
  deduplicate_finds j h saved =
      let (x, by_hash) = r.hash_found h j saved in
      let (o, by_id) = r.source_answers h j.source j.source_job_id in
      let (y, by_hash') = r.hash_found (source_lookup j ∷ h) j saved in
      elim (Bool-cases (j.source_job_id == "")) [
        | inl e ↦ (x, ground arith)
        | inr e ↦ elim (Option-cases o) [
          | inl missing ↦ (y, ground arith)
          | inr (z, found) ↦ (z, ground arith)
        ]
      ]

  -- Over a store that answers every lookup by a source's id, and finds a job by the fingerprint of
  -- any job saved in it, a posting whose fingerprint was saved before is ingested as a duplicate
  -- of a stored job.
  pub ingest_again :
      (sha : String → String) (source : String) (raw : RawJob) (h : List Call)
      → let j = normalize sha source raw in
        any (Types.is_save_of j.normalized_hash) h ≡ true
        → (existing : Job) × ((deduplicate store j h).0 ≡ ok (some existing))
          × ((ingest sha store source raw h).0 ≡ ok (is_duplicate_of j existing))
  unfolding ingest
  ingest_again sha source raw h saved =
      let (existing, found) = deduplicate_finds (normalize sha source raw) h saved in
      (existing, found, ground arith)

-- A posting that is found nowhere is ingested as it was normalized.
pub ingest_new :
    (sha : String → String) (store : Store) (source : String) (raw : RawJob) (h : List Call)
    → let j = normalize sha source raw in
      (deduplicate store j h).0 ≡ ok none
      → ((ingest sha store source raw h).0 ≡ ok j) × (j.status ≡ normalized)
unfolding ingest normalize
ingest_new sha store source raw h none_found = ground arith
