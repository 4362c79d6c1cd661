-- ===== src/Controller.antt =====
-- internal/controller/airflowclusters_controller.go: the reconciliation of one request.
pub mod Defs
pub mod Laws
pub mod Refusal
pub mod Refines
pub mod Builds
