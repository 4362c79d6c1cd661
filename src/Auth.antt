-- ===== src/Auth.antt =====
-- internal/controller/common/auth.go
pub mod Types
pub mod Ldap
pub mod Oidc
pub mod New
pub mod Accepts
pub mod Failures
pub mod Gather
pub mod Gathered
pub mod Templates
pub mod Config
pub mod Rendered
pub mod LastWins
pub mod Whole
