-- ===== src/HostPolicy.antt =====
-- pkg/KubeArmorHostPolicy and pkg/KubeArmorExternalWorkload: the controllers that check the
-- resources of the cluster.
pub mod Types
pub mod Schema
pub mod Reconcile
