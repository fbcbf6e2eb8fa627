-- ===== src/Job.antt =====
-- internal/job: job postings, how they are normalized, deduplicated, scored and evaluated.
pub mod Types
pub mod Normalize
pub mod Dedup
pub mod Scoring
pub mod Pipeline
pub mod Memory
mod Tests
