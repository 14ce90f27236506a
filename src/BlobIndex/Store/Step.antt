-- ===== src/BlobIndex/Store/Step.antt =====
-- One content that is accepted, as the store sees it.
use camlispp.Prelude.{
  ℕ, ◌↔◌, get_elem?-append_new, get_elem?-append_there, ◌≡◌, ◌≢◌, refl, sym, ap, ◌∙◌, subst, All,
  ◌⊎◌, inl, inr, true, [], ◌∷◌, Option, none, some, arith, length, get_elem?, Bool-cases,
}
use camlispp.StdString.{Bytes, str_eq_iff, str_eq_refl}
use camlispp.StdMap.{IsSorted, find, assign, find-assign_self, find-assign_ne, assign-IsSorted}
use camlispp.BlobKey.{BlobKey, cmpr_blob_key}
use camlispp.BlobKey.Order.{key_order, key_lt_total, cmpr_blob_key-key_lt}
use camlispp.Blob.{Blob, add_hash, set_size, new_blob}
use camlispp.Config.{Config}
use camlispp.Hash.{Crypto}
use camlispp.BlobIndex.Defs.{Disk, BlobIndex, write_file}
use camlispp.BlobIndex.Spec.{sha1_key, sha256_key, path_of, full_blob, accepted, stored}
use camlispp.BlobIndex.WriteOnce.{stored_keeps}
use camlispp.BlobIndex.Store.{Store, file_of, file_at, content_at, put, HasRoom, IsFilled}

cmpr_blob_key_iff : (a b : BlobKey) → (cmpr_blob_key a b ≡ true) ↔ (a ≡ b)
unfolding cmpr_blob_key
cmpr_blob_key_iff a b = (
  λ e. let (x, y) = (cmpr_blob_key-key_lt a b).0 e in key_lt_total a b x y,
  λ e. rw e (ground (arith, str_eq_refl b.hash_type, str_eq_refl b.hash_value)),
)

module _ (crypto : Crypto) (config : Config) (content : Bytes) where
  full_blob-path : (full_blob crypto config content).file_path ≡ path_of crypto config content
  unfolding add_hash set_size new_blob
  full_blob-path = refl

  -- A content with room has its file afterwards.
  pub stored_file :
      (d : Disk)
      → HasRoom crypto config d content
      → (stored crypto config content d).file (path_of crypto config content) ≡ some content
  unfolding write_file
  stored_file d (whole, inl (e, w)) = ground (arith, str_eq_refl (path_of crypto config content))
  stored_file d (whole, inr e) = stored_keeps crypto config content d _ content e

  pub stored_elsewhere :
      (d : Disk) (path : Bytes)
      → path_of crypto config content ≢ path
      → (stored crypto config content d).file path ≡ d.file path
  unfolding write_file
  stored_elsewhere d path n = ground (arith, str_eq_iff (path_of crypto config content) path)

  pub stored-writable :
      (d : Disk) (path : Bytes) → (stored crypto config content d).writable path ≡ d.writable path
  unfolding write_file
  stored-writable d path = ground arith

  module _ (i : BlobIndex) where
    abbrev pub new : BlobIndex
    new = accepted crypto config content i

    -- a key that leads to the new blob
    new_file :
        HasRoom crypto config i.disk content
        → file_at new.heap new.disk (some (length i.heap)) ≡ some content
    new_file room =
        ap (file_of new.disk) (get_elem?-append_new i.heap (full_blob crypto config content))
        ∙ ap new.disk.file full_blob-path
        ∙ stored_file i.disk room

    old_file :
        (p : ℕ) (b : Blob) (c : Bytes)
        → get_elem? i.heap p ≡ some b
        → i.disk.file b.file_path ≡ some c
        → file_at new.heap new.disk (some p) ≡ file_at i.heap i.disk (some p)
    old_file p b c e f =
        ap (file_of new.disk)
          (get_elem?-append_there i.heap (full_blob crypto config content ∷ []) p b e)
        ∙ stored_keeps crypto config content i.disk b.file_path c f
        ∙ sym (ap (file_of i.disk) e ∙ f)

    abbrev k1 : BlobKey
    k1 = sha1_key crypto config content

    abbrev k2 : BlobKey
    k2 = sha256_key crypto config content

    -- Where a key leads afterwards.
    find_new :
        (k : BlobKey)
        → IsSorted i.blobs
        → (((k ≡ k1) ⊎ (k ≡ k2)) × (find k new.blobs ≡ some (length i.heap)))
          ⊎ ((k ≢ k1) × (k ≢ k2) × (find k new.blobs ≡ find k i.blobs))
    find_new k s =
        let p = length i.heap in
        let one = assign k1 p i.blobs in
        let t = assign-IsSorted k1 p i.blobs s in
        elim (Bool-cases (cmpr_blob_key k k2)) [
          | inl h2 ↦
              let e = (cmpr_blob_key_iff k k2).0 h2 in
              inl (inr e, ap (λ (q : BlobKey). find q new.blobs) e ∙ find-assign_self k2 p one)
          | inr h2 ↦
              let n2 : k ≢ k2 = λ e. cc ((cmpr_blob_key_iff k k2).1 e) in
              let down = find-assign_ne k2 k p one t (λ e. n2 (sym e)) in
              elim (Bool-cases (cmpr_blob_key k k1)) [
                | inl h1 ↦
                    let e = (cmpr_blob_key_iff k k1).0 h1 in
                    inl (
                      inl e,
                      down ∙ ap (λ (q : BlobKey). find q one) e ∙ find-assign_self k1 p i.blobs,
                    )
                | inr h1 ↦
                    let n1 : k ≢ k1 = λ e. cc ((cmpr_blob_key_iff k k1).1 e) in
                    inr (n1, n2, down ∙ find-assign_ne k1 k p i.blobs s (λ e. n1 (sym e)))
              ]
        ]

    put_own :
        (s : Store) (k : BlobKey)
        → (k ≡ k1) ⊎ (k ≡ k2)
        → put crypto config content s k ≡ some content
    put_own s k (inl e) = rw ((cmpr_blob_key_iff k k1).1 e) refl
    put_own s k (inr e) = ground (arith, (cmpr_blob_key_iff k k2).1 e)

    put_other : (s : Store) (k : BlobKey) → k ≢ k1 → k ≢ k2 → put crypto config content s k ≡ s k
    put_other s k n1 n2 = ground (arith, (cmpr_blob_key_iff k k1).0, (cmpr_blob_key_iff k k2).0)

    old_content :
        (k : BlobKey) (o : Option ℕ)
        → IsFilled i
        → find k i.blobs ≡ o
        → file_at new.heap new.disk o ≡ file_at i.heap i.disk o
    old_content k none f e = refl
    old_content k (some p) f e = let (b, c, at, held, whole) = f k p e in old_file p b c at held

    pub content_at-accepted :
        (k : BlobKey)
        → IsSorted i.blobs
        → IsFilled i
        → HasRoom crypto config i.disk content
        → content_at new k ≡ put crypto config content (content_at i) k
    content_at-accepted k s f room = elim (find_new k s) [
      | inl (own, e) ↦
          ap (file_at new.heap new.disk) e ∙ new_file room ∙ sym (put_own (content_at i) k own)
      | inr (n1, n2, e) ↦
          ap (file_at new.heap new.disk) e
          ∙ old_content k (find k i.blobs) f refl
          ∙ sym (put_other (content_at i) k n1 n2)
    ]

    pub accepted-IsFilled :
        IsSorted i.blobs → IsFilled i → HasRoom crypto config i.disk content → IsFilled new
    accepted-IsFilled s f room k p e = elim (find_new k s) [
      | inl (own, e') ↦
          let same : p ≡ length i.heap = cc in
          (
            full_blob crypto config content,
            content,
            rw same (get_elem?-append_new i.heap (full_blob crypto config content)),
            ap new.disk.file full_blob-path ∙ stored_file i.disk room,
            subst (All (λ (x : ℕ). x ≢ 0)) (sym full_blob-path) room.0,
          )
      | inr (n1, n2, e') ↦
          let (b, c, at, held, whole) = f k p (sym e' ∙ e) in
          (
            b,
            c,
            get_elem?-append_there i.heap (full_blob crypto config content ∷ []) p b at,
            stored_keeps crypto config content i.disk b.file_path c held,
            whole,
          )
    ]
