-- ===== src/ClusterTable.antt =====
-- pkg/eppplugin/clustertable: the hub of desired endpoints and the discovery plugin that applies it.
pub mod Endpoint
pub mod Hub
pub mod Waiting
pub mod Plugin
pub mod Discovery
pub mod Diff
pub mod Resident
pub mod Stable
