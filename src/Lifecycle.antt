-- ===== src/Lifecycle.antt =====
-- internal/app/lifecycle_native.go: the gateway's control of the pair's whole life.
pub mod Services
pub mod Presence
pub mod Memory
pub mod Survey
pub mod Snapshot
pub mod Operation
pub mod Start
pub mod Stop
mod Samples
mod Tests
