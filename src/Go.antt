-- ===== src/Go.antt =====
-- The parts of the Go language and of its standard library that the operator uses: results that
-- may be errors or panics, text, slash-separated paths, URLs and maps.
pub mod Outcome
pub mod Text
pub mod FilePath
pub mod Map
pub mod Url
pub mod Collect
pub mod Decimal
pub mod Json
pub mod JsonReader
pub mod JsonLaws
