-- ===== src/InnerApi.antt =====
-- pkg/innerapi: the HTTP client of the configuration server.
pub mod Text
pub mod Client
pub mod Outcome
pub mod Version
