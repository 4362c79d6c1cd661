-- ===== src/Tests.antt =====
-- Runs of the model at concrete inputs: a platform and a framework whose functions are written out,
-- and the theorems at clusters built on them.
mod Setup
mod Authentications
mod Sets
mod Maps
mod Roles
mod Clusters
mod Commands
mod Copies
mod Plans
mod Builds
