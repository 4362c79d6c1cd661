-- ===== src/Platform.antt =====
-- The code that the operator calls and that is not in the repository (operator-go,
-- controller-runtime, the Kubernetes API), as a record of functions and constants, with the types
-- of operator-go's authentication API that the operator reads.
mod Defs
mod Laws
pub use Defs.*
pub use Laws.*
