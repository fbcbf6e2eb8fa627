-- ===== src/Analytics.antt =====
-- internal/outcome: what became of the applications, and what is computed from it.
pub mod Records
pub mod Funnel
pub mod Performance
pub mod Recommendations
pub mod Calibration
pub mod Reordered
mod Tests
