-- ===== src/ConfigMap.antt =====
-- internal/controller/common/config.go
pub mod Texts
pub mod Builder
pub mod Logging
pub mod Build
pub mod Laws
pub mod Levels
