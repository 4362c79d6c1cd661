-- ===== src/Framework.antt =====
-- What the operator is given by the controller framework: the identity of a role group, the merge
-- of specs, the base reconcilers, and the API server's cluster object.
mod Defs
mod Laws
pub use Defs.*
pub use Laws.*
