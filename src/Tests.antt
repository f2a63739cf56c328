-- ===== src/Tests.antt =====
-- The theorems at concrete inputs.
mod Slots
mod Rings
mod Evictions
mod Dumps
mod Refreshes
mod Backends
mod Caches
mod Requests
mod Switches
mod Files
mod Logs
mod Configs
mod Systems
mod Restores
mod Recencies
mod Probes
mod ErrorLogs
