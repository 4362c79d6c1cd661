-- ===== src/Tests/Setup.antt =====
-- A platform, a framework and the specs that the tests use.
mod Platforms
mod Specs
pub use Platforms.*
pub use Specs.*
