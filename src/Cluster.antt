-- ===== src/Cluster.antt =====
-- internal/controller/cluster.go: the reconciler of one cluster.
pub mod Defs
pub mod Laws
pub mod Complete
pub mod Plan
pub mod Refines
pub mod Made
