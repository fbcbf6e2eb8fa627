-- ===== src/Browser.antt =====
-- internal/browser: sessions of an automated browser, from start to submission, with the hand-over
-- to a person and the way back.
pub mod Lifecycle
pub mod Types
pub mod Recovery
pub mod Steps
pub mod Runner
pub mod Drivers
pub mod Samples
