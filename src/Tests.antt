-- ===== src/Tests.antt =====
-- Runs of the code on small clusters, and the theorems at concrete inputs.
pub mod Cluster
pub mod Stacking
pub mod Switching
pub mod Storing
pub mod Serving
pub mod Querying
pub mod Probing
pub mod Migrating
pub mod Configuring
pub mod Calling
pub mod Leading
pub mod SimulatedEtcd
pub mod Etcd
pub mod Certifying
pub mod Starting
pub mod Arming
pub mod Completing
pub mod Rewriting
pub mod Recording
