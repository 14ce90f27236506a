-- ===== src/BlobKey/RoundTrip.antt =====
-- The text of a key reads back as the key; a text with no dash reads as a key too.
use camlispp.Prelude.{
  ℕ, suc, ◌+◌, ◌-◌, ◌<◌, ◌^◌, ◌≡◌, ◌≢◌, refl, [], ◌∷◌, ◌++◌, some, arith, length, drop, All,
  take_all,
}
use camlispp.StdString.{
  Bytes, find, find_byte, find_absent, to_unsigned, substr, substr_n, take-length-append,
}
use camlispp.BlobKey.{BlobKey, blobref, create_blob_key}

abbrev pub HasNoDash : Bytes → Type 0
HasNoDash s = All (λ x. x ≢ b'-') s

drop-suc-length-append :
    (s : Bytes) (c : ℕ) (rest : Bytes) → drop (suc (length s)) (s ++ c ∷ rest) ≡ rest
drop-suc-length-append [] c rest = refl
drop-suc-length-append (x ∷ s) c rest = drop-suc-length-append s c rest

-- The text of a key is read back as that key, if its hash type has no dash and fewer than
-- 2 ^ 32 - 1 bytes.
pub create_blob_key-blobref :
    (k : BlobKey)
    → HasNoDash k.hash_type
    → length k.hash_type < 2 ^ 32 - 1
    → create_blob_key (blobref k) ≡ some k
unfolding create_blob_key blobref
create_blob_key-blobref k h l =
    let whole : to_unsigned (length k.hash_type) ≡ length k.hash_type = omega arith in
    let next : to_unsigned (length k.hash_type + 1) ≡ suc (length k.hash_type) = omega arith in
    let found = find_byte b'-' k.hash_type k.hash_value h in
    let front = take-length-append k.hash_type (b'-' ∷ k.hash_value) in
    let back = drop-suc-length-append k.hash_type b'-' k.hash_value in
    rw (found, whole, next) (rw (front, back) (ground arith))

-- A text of fewer than 2 ^ 32 bytes with no dash is taken for a key whose two parts are both the
-- whole text.
pub create_blob_key_no_dash :
    (s : Bytes)
    → HasNoDash s
    → length s < 2 ^ 32
    → create_blob_key s ≡ some (record { hash_type = s; hash_value = s })
unfolding create_blob_key
create_blob_key_no_dash s h l =
    rw (find_absent b'-' s h) (rw (take_all 4294967295 s (omega arith)) refl)

-- An unsigned position is never the position that stands for "not found", so every text is read
-- as a key.
pub create_blob_key_total : (s : Bytes) → (k : BlobKey) × (create_blob_key s ≡ some k)
unfolding create_blob_key
create_blob_key_total s =
    let split = to_unsigned (find s (b'-' ∷ [])) in
    (
      record { hash_type = substr_n s 0 split; hash_value = substr s (to_unsigned (split + 1)) },
      ground arith,
    )
