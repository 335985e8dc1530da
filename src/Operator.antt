-- ===== src/Operator.antt =====
-- src/operator/core: the operator gives every external workload an identity and keeps the maps
-- between identities, workload names and labels, in memory and in etcd.
pub mod State
pub mod Writes
pub mod Labels
pub mod Identities
pub mod Events
pub mod Catalog
pub mod Daemon
