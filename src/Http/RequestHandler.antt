-- ===== src/Http/RequestHandler.antt =====
-- blobserver/src/request_handler.cpp: the handler of requests.
mod Defs
mod Queries
mod Dispatch
pub mod Routes
pub mod Enumeration
pub mod ContentLength
pub mod Stored
pub mod Invariant
pub mod Upload
pub mod Forms
pub mod Store
unfoldable pub use Defs.*
unfoldable pub use Queries.*
unfoldable pub use Dispatch.*
