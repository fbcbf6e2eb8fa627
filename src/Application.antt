-- ===== src/Application.antt =====
-- internal/application: applications, their lifecycle, answers, the safety gate, the workflow that
-- prepares them, the review queue, duplicate checks and the audit trail.
pub mod Types
pub mod State
pub mod Answers
pub mod Gate
pub mod Workflow
pub mod Queue
pub mod Records
pub mod Samples
mod Tests
