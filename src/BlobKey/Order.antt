-- ===== src/BlobKey/Order.antt =====
-- The order on keys is strict and total, and agrees with the comparison for equality.
use camlispp.Prelude.{◌≡◌, ◌↔◌, true, false, arith}
use camlispp.StdString.{str_eq_iff, str_eq_refl, str_lt_irrefl, str_lt_trans, str_lt_total}
use camlispp.StdMap.{StrictOrder}
use camlispp.BlobKey.{BlobKey, key_lt, cmpr_blob_key}

pub key_lt_irrefl : (a : BlobKey) → key_lt a a ≡ false
unfolding key_lt
key_lt_irrefl a = ground (arith, str_eq_refl a.hash_type, str_lt_irrefl a.hash_value)

pub key_lt_trans : (a b c : BlobKey) → key_lt a b ≡ true → key_lt b c ≡ true → key_lt a c ≡ true
unfolding key_lt
key_lt_trans a b c h k = ground (
  arith,
  str_eq_iff a.hash_type b.hash_type,
  str_eq_iff b.hash_type c.hash_type,
  str_eq_iff a.hash_type c.hash_type,
  str_lt_irrefl a.hash_type,
  str_lt_trans a.hash_type b.hash_type c.hash_type,
  str_lt_trans a.hash_type b.hash_type a.hash_type,
  str_lt_trans a.hash_value b.hash_value c.hash_value,
)

pub key_lt_total : (a b : BlobKey) → key_lt a b ≡ false → key_lt b a ≡ false → a ≡ b
unfolding key_lt
key_lt_total a b h k = ground (
  arith,
  str_eq_iff a.hash_type b.hash_type,
  str_eq_iff b.hash_type a.hash_type,
  str_lt_total a.hash_type b.hash_type,
  str_lt_total a.hash_value b.hash_value,
)

instance abbrev pub key_order : StrictOrder BlobKey
key_order = record {
  lt = key_lt;
  irrefl = key_lt_irrefl;
  trans = key_lt_trans;
  total = key_lt_total;
}

-- Two keys are equal for `cmpr_BlobKey` exactly when neither is below the other.
pub cmpr_blob_key-key_lt :
    (a b : BlobKey) → (cmpr_blob_key a b ≡ true) ↔ ((key_lt a b ≡ false) × (key_lt b a ≡ false))
unfolding cmpr_blob_key
cmpr_blob_key-key_lt a b = (
  λ e. ground (
    arith,
    str_eq_iff a.hash_type b.hash_type,
    str_eq_iff a.hash_value b.hash_value,
    key_lt_irrefl a,
  ),
  λ e.
      let same : a ≡ b = key_lt_total a b e.0 e.1 in
      rw same (ground (arith, str_eq_refl b.hash_type, str_eq_refl b.hash_value)),
)
