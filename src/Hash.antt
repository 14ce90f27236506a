-- ===== src/Hash.antt =====
-- blobserver/src/Hash.cpp and Hash.hpp. Crypto++ is a parameter: what its hash and hex filters
-- make of the bytes that they are given.
use camlispp.Prelude.{Option, none}
use camlispp.StdString.{Bytes, c_str}

pub data HashType : Type 0 where
  sha1 sha256 : HashType

pub record Crypto : Type 0 where
  pub sha1_hex : Bytes → Bytes
  pub sha256_hex : Bytes → Bytes

-- Sha1::operator() and Sha256::operator(): StringSource is given a pointer and no length, so it
-- reads a C string, and `len` is not used.
unfoldable pub sha1_of : Crypto → Bytes → Bytes
sha1_of crypto s = crypto.sha1_hex (c_str s)

unfoldable pub sha256_of : Crypto → Bytes → Bytes
sha256_of crypto s = crypto.sha256_hex (c_str s)

unfoldable pub hash_type_for_name : Bytes → Option HashType
hash_type_for_name name = none

unfoldable pub name_for_hash_type : HashType → Option Bytes
name_for_hash_type t = none
