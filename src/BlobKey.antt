-- ===== src/BlobKey.antt =====
-- blobserver/src/BlobKey.cpp and BlobKey.hpp: the key of a blob, its order, its text, and the
-- parser of that text. `create_blob_key` keeps the position of the dash in an `unsigned`.
pub mod RoundTrip
pub mod Order
use camlispp.Prelude.{
  ℕ, ◌+◌, Bool, not, ◌&&◌, Option, none, some, [], ◌∷◌, ◌++◌, ◌==◌, if◌then◌else◌,
}
use camlispp.StdString.{Bytes, str_eq, str_lt, find, npos, to_unsigned, substr, substr_n}

pub record BlobKey : Type 0 where
  pub hash_type : Bytes
  pub hash_value : Bytes

-- operator<
unfoldable pub key_lt : BlobKey → BlobKey → Bool
unfolding str_eq str_lt
key_lt mk1 mk2 =
    if not (str_eq mk1.hash_type mk2.hash_type)
    then str_lt mk1.hash_type mk2.hash_type
    else str_lt mk1.hash_value mk2.hash_value

-- cmpr_BlobKey
unfoldable pub cmpr_blob_key : BlobKey → BlobKey → Bool
unfolding str_eq
cmpr_blob_key mk1 mk2 = str_eq mk1.hash_type mk2.hash_type && str_eq mk1.hash_value mk2.hash_value

unfoldable pub blobref : BlobKey → Bytes
blobref k = k.hash_type ++ (b'-' ∷ k.hash_value)

unfoldable pub create_blob_key : Bytes → Option BlobKey
unfolding find
create_blob_key hash =
    let split_pos = to_unsigned (find hash (b'-' ∷ [])) in
    if not (split_pos == npos)
    then some (record {
      hash_type = substr_n hash 0 split_pos;
      hash_value = substr hash (to_unsigned (split_pos + 1));
    })
    else none
