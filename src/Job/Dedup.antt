-- ===== src/Job/Dedup.antt =====
-- internal/job/dedup.go.
pub mod Laws
use careerpilot.Base.{
  String, Option, none, some, if◌then◌else◌, nat_eq, ◌==◌, string_eq, int_eq, wrap, Result, ok, err,
  M, ◌>>=◌, pure, call, on_ok,
}
use careerpilot.Job.Types
use careerpilot.Job.Types.{duplicate, Job, RawJob, Call, Store}
use careerpilot.Job.Normalize.{normalize}

-- The second lookup of `Deduplicate`, by fingerprint.
by_hash : Store → Job → M Call (Result (Option Job))
by_hash store j = do
  answer ←
      call (Types.find_by_normalized_hash j.normalized_hash)
        (λ h. store.find_by_normalized_hash h j.normalized_hash)
  on_ok answer (λ e. err (wrap "job: dedup by fingerprint" e)) λ found. pure (ok found)

-- The first lookup, by the source's own id; what it finds is final.
by_source_id : Store → Job → M Call (Result (Option Job))
unfolding by_hash
by_source_id store j = do
  answer ←
      call (Types.find_by_source_job_id j.source j.source_job_id)
        (λ h. store.find_by_source_job_id h j.source j.source_job_id)
  on_ok answer (λ e. err (wrap "job: dedup by source id" e))
      λ found. elim found [ some existing ↦ pure (ok (some existing)) | none ↦ by_hash store j ]

-- `some existing` stands for `(existing, true, nil)`, `none` for `(Job{}, false, nil)`.
unfoldable pub deduplicate : Store → Job → M Call (Result (Option Job))
unfolding by_source_id
deduplicate store j = if j.source_job_id == "" then by_hash store j else by_source_id store j

mark_duplicate : Job → Option Job → Job
mark_duplicate j none = j
mark_duplicate j (some existing) = record j { status = duplicate; duplicate_of_id = existing.id }

unfoldable pub ingest : (String → String) → Store → String → RawJob → M Call (Result Job)
unfolding deduplicate mark_duplicate
ingest sha256_hex store source raw = do
  let j = normalize sha256_hex source raw
  answer ← deduplicate store j
  on_ok answer (λ e. err e) λ found. pure (ok (mark_duplicate j found))
