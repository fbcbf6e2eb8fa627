-- ===== src/ModelProvider.antt =====
-- internal/modelprovider: calls of a language model, each of them audited.
pub mod Recorder
pub mod Placeholders
mod Tests
