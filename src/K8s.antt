-- ===== src/K8s.antt =====
-- genesis-core/src/k8s: secrets in the cluster.
pub mod Metadata
pub mod Injector
pub mod Auth
pub mod Cluster
pub mod Mock
pub mod Accepted
pub mod Stored
