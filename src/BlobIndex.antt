-- ===== src/BlobIndex.antt =====
-- blobserver/src/BlobIndex.cpp: the index of the blobs, and the files that hold them.
mod Defs
mod Spec
pub mod Lookup
pub mod Pages
pub mod WriteOnce
pub mod Invariant
pub mod Known
pub mod Store
unfoldable pub use Defs.*
pub use Spec.*
