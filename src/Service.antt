-- ===== src/Service.antt =====
-- internal/controller/common/service.go: the service that Prometheus reads.
mod Defs
mod Branches
mod Laws
unfoldable pub use Defs.*
pub use Branches.*
pub use Laws.*
mod RoundTrip
pub use RoundTrip.*
