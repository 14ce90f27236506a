-- ===== src/Http/Grammars.antt =====
-- The grammars of blobserver/src/request.hpp and boost-multipart-form.h, over qi.
mod Query
mod Form
mod Calls
pub mod Attributes
pub mod Pairs
pub mod Chunks
pub mod Pieces
pub mod Forms
pub mod NotAscii
unfoldable pub use Query.*
unfoldable pub use Form.*
unfoldable pub use Calls.*
