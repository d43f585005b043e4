-- ===== src/Controller.antt =====
-- The Service controller (internal/controller).
pub mod Service
pub mod Watches
pub mod Conflicts
pub mod Cluster
pub mod LbPorts
pub mod Nodes
pub mod DnsRecords
pub mod Cleanup
pub mod Endpoints
pub mod Pods
pub mod ProxyArgs
pub mod DaemonSets
pub mod Status
pub mod Server
pub mod Reconcile
mod Samples
mod Tests
mod CleanupTests
mod DaemonSetTests
mod SampleServer
mod ReconcileTests
mod WatchTests
