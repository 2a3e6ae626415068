-- ===== src/Cmd.antt =====
-- cmd/epp: the configuration, the health service, the readiness gate and the composition root.
pub mod Config
pub mod Health
pub mod Compose
pub mod Launch
pub mod Shutdown
pub mod Ended
pub mod Ends
pub mod Serving
pub mod Plugins
