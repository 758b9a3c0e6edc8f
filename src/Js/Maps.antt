-- ===== src/Js/Maps.antt =====
-- `Map` and plain objects used as dictionaries: an association list in insertion order.
mod Defs
mod Laws
unfoldable pub use Defs.*
pub use Laws.*
