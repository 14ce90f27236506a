-- ===== src/StdMap.antt =====
-- std::map: the entries in the order of their keys, each key once. The order of the keys is an
-- instance, as the comparison is the map's template argument.
mod Base
mod Laws
pub mod Insert
mod Pages
unfoldable pub use Base.*
pub use Laws.*
pub use Pages.*
