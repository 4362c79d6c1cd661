-- ===== src/StatefulSet.antt =====
-- internal/controller/common/statefulset.go
pub mod Scripts
pub mod Builder
pub mod Env
pub mod Build
pub mod Laws
pub mod Args
pub mod Calls
pub mod Built
pub mod Containers
