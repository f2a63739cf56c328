-- ===== src/Upstream.antt =====
-- The upstream package (pkg/upstream): a backend's slot with its states, its monitor, the cluster.
pub mod Float
pub mod Slot
pub mod Monitor
pub mod Cluster
pub mod Backend
pub mod Start
pub mod Lifecycle
