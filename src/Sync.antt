-- ===== src/Sync.antt =====
-- blobserver/src/Sync.cpp and Sync.hpp: the thread that fetches blobs from other servers and
-- sends blobs to them.
mod Enumeration
mod Urls
mod Host
pub mod Sending
pub mod Sets
pub mod Asking
pub mod Uploading
pub mod Exchange
pub mod Addresses
pub mod Fetching
pub mod Rounds
pub mod Getting
pub mod Following
pub mod Reading
unfoldable pub use Enumeration.*
unfoldable pub use Urls.*
unfoldable pub use Host.*
