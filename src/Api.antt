-- ===== src/Api.antt =====
-- The HTTP handlers (internal/cache/api).
pub mod Proxy
pub mod Clear
pub mod Metrics
pub mod Switch
pub mod Errors
