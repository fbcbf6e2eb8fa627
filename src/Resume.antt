-- ===== src/Resume.antt =====
-- internal/resume: resume versions, their lifecycle, page validation and generation.
pub mod Version
pub mod Validation
pub mod Pipeline
pub mod Latex
mod Tests
