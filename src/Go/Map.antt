-- ===== src/Go/Map.antt =====
-- Go maps: an association list of the entries, and the order of a `range`, which Go leaves open.
mod Defs
mod Laws
unfoldable pub use Defs.*
pub use Laws.*
