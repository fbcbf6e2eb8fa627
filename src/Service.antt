-- ===== src/Service.antt =====
-- cmd/api, internal/app, internal/storage/postgres and internal/httpserver: how the process starts,
-- serves and ends. The database driver, the HTTP server and the signals are the environment.
pub mod Database
pub mod App
pub mod Run
pub mod Health
mod Tests
