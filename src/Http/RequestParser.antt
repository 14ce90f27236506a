-- ===== src/Http/RequestParser.antt =====
-- blobserver/src/request_parser.cpp and request_parser.hpp: the parser of requests, a state
-- machine that is fed one character at a time.
mod Atoi
mod Defs
pub mod Chunks
pub mod Decimal
pub mod Bounds
pub mod WellFormed
mod WrittenLines
pub mod RoundTrip
unfoldable pub use Atoi.*
unfoldable pub use Defs.*
