-- ===== src/Cluster.antt =====
-- The controller of the model pair: cluster_lease.go and controller.go.
pub mod Owner
pub mod Lease
pub mod Host
pub mod Units
pub mod Stop
pub mod Verify
pub mod Start
pub mod Control
pub mod Trace
pub mod Receipts
pub mod Writes
pub mod Samples
pub mod Tests
