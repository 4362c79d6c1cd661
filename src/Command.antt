-- ===== src/Command.antt =====
-- cmd/main.go: the start of the process.
pub mod Defs
pub mod Laws
pub mod Version
pub mod Scheme
