-- ===== src/Tests/Keys.antt =====
-- Tests of the keys and of the texts of a blob.
use camlispp.Prelude.{◌≡◌, ◌↔◌, refl, true, false, ◌||◌, some, arith}
use camlispp.StdString.{bytes, str_eq, c_str}
use camlispp.BlobKey.{BlobKey, blobref, create_blob_key, key_lt, cmpr_blob_key}
use camlispp.BlobKey.RoundTrip.{create_blob_key-blobref, create_blob_key_no_dash}
use camlispp.BlobKey.Order.{cmpr_blob_key-key_lt}
use camlispp.Blob.{new_blob, add_hash, is_match}
use camlispp.Blob.Hashes.{IsOrdered, is_match-add_hash}

abbrev key_a : BlobKey
key_a = record { hash_type = bytes "sha1"; hash_value = bytes "ab-c" }

abbrev key_b : BlobKey
key_b = record { hash_type = bytes "sha256"; hash_value = bytes "ab-c" }

create_blob_key-blobref_example : create_blob_key (blobref key_a) ≡ some key_a
create_blob_key-blobref_example = create_blob_key-blobref key_a (ground arith) (ground arith)

create_blob_key_no_dash_example :
    create_blob_key (bytes "abc")
    ≡ some (record { hash_type = bytes "abc"; hash_value = bytes "abc" })
create_blob_key_no_dash_example =
    create_blob_key_no_dash (bytes "abc") (ground arith) (ground arith)

cmpr_blob_key-key_lt_example :
    (cmpr_blob_key key_a key_b ≡ true)
    ↔ ((key_lt key_a key_b ≡ false) × (key_lt key_b key_a ≡ false))
cmpr_blob_key-key_lt_example = cmpr_blob_key-key_lt key_a key_b

is_match-add_hash_example :
    IsOrdered (add_hash (bytes "b") (new_blob (bytes "f"))).hashes
    × (is_match (bytes "c") (add_hash (bytes "b") (new_blob (bytes "f"))) ≡ (
        str_eq (c_str (bytes "b")) (c_str (bytes "c"))
        || is_match (bytes "c") (new_blob (bytes "f"))))
is_match-add_hash_example =
    is_match-add_hash (bytes "b") (bytes "c") (new_blob (bytes "f")) (unfold new_blob in tt)

key_lt_run : key_lt key_a key_b ≡ true
unfolding key_lt
key_lt_run = refl
