-- ===== src/Model.antt =====
-- The model package (pkg/model): an entry, its dump format, its payload, its keys.
pub mod Binary
pub mod Entry
pub mod Equal
pub mod Payload
pub mod Refresh
pub mod ToBytes
pub mod Query
pub mod Keys
pub mod Compare
