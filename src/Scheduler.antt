-- ===== src/Scheduler.antt =====
-- internal/scheduler: what one scheduled run does, and how its failures are classified.
pub mod Retry
pub mod Discovery
pub mod Evaluation
pub mod Reports
pub mod Proposal
pub mod System
mod Tests
