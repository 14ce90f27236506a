-- ===== src/StdString.antt =====
-- What blobserver/src uses of std::string and of the boost string algorithms, on a 64-bit
-- platform: a string is the list of its bytes (each below 256), a size_t is a number below
-- 2 ^ 64 with `npos` the greatest, and an `unsigned` is a number below 2 ^ 32.
mod Base
mod Laws
mod Order
mod Decimal
unfoldable pub use Base.*
pub use Laws.*
pub use Order.*
unfoldable pub use Decimal.*
