-- ===== src/BlobIndex/Lookup.antt =====
-- What get, the heap and the files show after add_blob.
use camlispp.Prelude.{
  ℕ, ◌<◌, ◌≡◌, ◌≢◌, ◌⊎◌, refl, sym, ap, ◌∙◌, subst, Bool, true, false, [], ◌∷◌, ◌++◌, Bool-cases,
  Option, none, some, arith, if◌then◌else◌, length, get_elem?, or_of, inl, inr,
  get_elem?-append_new, get_elem?-append_old,
}
use camlispp.StdString.{Bytes, str_eq_iff}
use camlispp.StdMap.{find, assign, IsSorted, find-assign_self, find-assign_ne, assign-IsSorted}
use camlispp.BlobKey.{BlobKey, blobref, create_blob_key}
use camlispp.BlobKey.Order.{key_order}
use camlispp.BlobKey.RoundTrip.{create_blob_key-blobref}
use camlispp.Config.{Config}
use camlispp.Hash.{Crypto}
use camlispp.BlobIndex.Defs.{done, BlobIndex, add_blob, get, key_for}
use camlispp.BlobIndex.Spec.{
  sha1_key, sha256_key, full_blob, bare_blob, accepted, refused, fits, add_blob_eq, add_blob_nil,
}

-- The texts of the two keys are read back, whatever the digests are.
pub create_blob_key-sha1_key :
    (crypto : Crypto) (config : Config) (content : Bytes)
    → create_blob_key (blobref (sha1_key crypto config content))
      ≡ some (sha1_key crypto config content)
unfolding key_for
create_blob_key-sha1_key crypto config content =
    create_blob_key-blobref (sha1_key crypto config content) (omega arith) (omega arith)

pub create_blob_key-sha256_key :
    (crypto : Crypto) (config : Config) (content : Bytes)
    → create_blob_key (blobref (sha256_key crypto config content))
      ≡ some (sha256_key crypto config content)
unfolding key_for
create_blob_key-sha256_key crypto config content =
    create_blob_key-blobref (sha256_key crypto config content) (omega arith) (omega arith)

sha1_key-ne-sha256_key :
    (crypto : Crypto) (config : Config) (content : Bytes)
    → sha256_key crypto config content ≢ sha1_key crypto config content
unfolding key_for
sha1_key-ne-sha256_key crypto config content e = cc

pub get-find :
    (hash : Bytes) (k : BlobKey) (i : BlobIndex)
    → create_blob_key hash ≡ some k
    → get hash i ≡ find k i.blobs
unfolding get
get-find hash k i e = rw (e, get)

module _ (crypto : Crypto) (config : Config) (content : Bytes) (i : BlobIndex) where
  get-accepted_sha256 :
      get (blobref (sha256_key crypto config content)) (accepted crypto config content i)
      ≡ some (length i.heap)
  get-accepted_sha256 =
      get-find _ _ _ (create_blob_key-sha256_key crypto config content)
      ∙ find-assign_self (sha256_key crypto config content) (length i.heap) _

  get-accepted_sha1 :
      IsSorted i.blobs
      → get (blobref (sha1_key crypto config content)) (accepted crypto config content i)
        ≡ some (length i.heap)
  get-accepted_sha1 s =
      let k1 = sha1_key crypto config content in
      let k2 = sha256_key crypto config content in
      let p = length i.heap in
      get-find _ _ _ (create_blob_key-sha1_key crypto config content)
      ∙ find-assign_ne k2 k1 p (assign k1 p i.blobs) (assign-IsSorted k1 p i.blobs s)
          (sha1_key-ne-sha256_key crypto config content)
      ∙ find-assign_self k1 p i.blobs

  get-accepted_other :
      (hash : Bytes) (k : BlobKey)
      → IsSorted i.blobs
      → create_blob_key hash ≡ some k
      → k ≢ sha1_key crypto config content
      → k ≢ sha256_key crypto config content
      → get hash (accepted crypto config content i) ≡ get hash i
  unfolding get
  get-accepted_other hash k s e n1 n2 =
      let k1 = sha1_key crypto config content in
      let k2 = sha256_key crypto config content in
      let p = length i.heap in
      rw (e, get)
        (find-assign_ne k2 k p (assign k1 p i.blobs) (assign-IsSorted k1 p i.blobs s)
            (λ q. n2 (sym q))
          ∙ find-assign_ne k1 k p i.blobs s (λ q. n1 (sym q)))

-- What a reader finds in an index after a content was accepted.
pub record Finds (crypto : Crypto) (config : Config) (content : Bytes) (old new : BlobIndex) (p : ℕ)
    : Type 0 where
  pub by_sha1 : get (blobref (sha1_key crypto config content)) new ≡ some p
  pub by_sha256 : get (blobref (sha256_key crypto config content)) new ≡ some p
  pub blob_at : get_elem? new.heap p ≡ some (full_blob crypto config content)
  pub old_blobs : (q : ℕ) → q < length old.heap → get_elem? new.heap q ≡ get_elem? old.heap q
  pub other_texts :
      (hash : Bytes) (k : BlobKey)
      → create_blob_key hash ≡ some k
      → k ≢ sha1_key crypto config content
      → k ≢ sha256_key crypto config content
      → get hash new ≡ get hash old
  pub sorted : IsSorted new.blobs

abbrev value : Option ℕ → ℕ
value none = 0
value (some p) = p

accepted-Finds :
    (crypto : Crypto) (config : Config) (content : Bytes) (i : BlobIndex)
    → IsSorted i.blobs
    → Finds crypto config content i (accepted crypto config content i) (length i.heap)
accepted-Finds crypto config content i s = record {
  by_sha1 = get-accepted_sha1 crypto config content i s;
  by_sha256 = get-accepted_sha256 crypto config content i;
  blob_at = get_elem?-append_new i.heap (full_blob crypto config content);
  old_blobs = λ q h. get_elem?-append_old i.heap _ q h;
  other_texts = λ hash k. get-accepted_other crypto config content i hash k s;
  sorted = assign-IsSorted _ _ _ (assign-IsSorted _ _ _ s);
}

if-done {ℓ} :
    {A : Type ℓ} (b : Bool) (x y z : A)
    → (if b then done x else done y) ≡ done z
    → (b ≡ true) × (z ≡ x) ⊎ (b ≡ false) × (z ≡ y)
if-done true x y z e = inl (refl, ground arith)
if-done false x y z e = inr (refl, ground arith)

-- The two ends of add_blob, told apart by the provided text.
pub add_blob_inversion :
    (crypto : Crypto) (config : Config) (provided : Option Bytes) (content : Bytes) (i : BlobIndex)
    (z : Option ℕ × BlobIndex)
    → add_blob crypto config provided content i ≡ done z
    → (fits crypto config content provided ≡ true)
        × (z ≡ (some (length i.heap), accepted crypto config content i))
      ⊎ (fits crypto config content provided ≡ false)
        × (z ≡ (none, refused crypto config content i))
add_blob_inversion crypto config provided [] i z e = cc (add_blob_nil crypto config provided i)
add_blob_inversion crypto config provided (c ∷ cs) i z e =
    if-done (fits crypto config (c ∷ cs) provided) _ _ z
      (sym (add_blob_eq crypto config provided c cs i) ∙ e)

-- When add_blob returns a blob, both texts of the content lead to that blob, which is the record
-- of the content with both texts in its set; the blobs that were there are unchanged, and every
-- text that is read as another key leads where it led before. The map must be in order, and stays
-- so.
pub get-add_blob :
    (crypto : Crypto) (config : Config) (provided : Option Bytes) (content : Bytes)
    (i j : BlobIndex) (p : ℕ)
    → IsSorted i.blobs
    → add_blob crypto config provided content i ≡ done (some p, j)
    → Finds crypto config content i j p
get-add_blob crypto config provided content i j p s e =
    elim (add_blob_inversion crypto config provided content i (some p, j) e) [
      | inl (fit, z) ↦
          subst (λ (q : Option ℕ × BlobIndex). Finds crypto config content i q.1 (value q.0))
            (sym z) (accepted-Finds crypto config content i s)
      | inr (unfit, z) ↦ absurd (cc (ap (λ (q : Option ℕ × BlobIndex). q.0) z))
    ]

-- A text that is provided for a content that is not empty is one of the content's two, and then
-- add_blob returns a new blob; or it is neither, and then add_blob returns none, the map and the
-- files are unchanged, and the heap has one more blob.
pub add_blob_provided :
    (crypto : Crypto) (config : Config) (hash : Bytes) (c : ℕ) (cs : Bytes) (i : BlobIndex)
    → (((blobref (sha1_key crypto config (c ∷ cs)) ≡ hash)
          ⊎ (blobref (sha256_key crypto config (c ∷ cs)) ≡ hash))
        × (j : BlobIndex) × (add_blob crypto config (some hash) (c ∷ cs) i
            ≡ done (some (length i.heap), j)))
      ⊎ ((blobref (sha1_key crypto config (c ∷ cs)) ≢ hash)
          × (blobref (sha256_key crypto config (c ∷ cs)) ≢ hash)
          × (j : BlobIndex) × (add_blob crypto config (some hash) (c ∷ cs) i ≡ done (none, j))
          × (j.blobs ≡ i.blobs)
          × (j.disk.file ≡ i.disk.file)
          × (j.heap ≡ i.heap ++ bare_blob crypto config (c ∷ cs) ∷ []))
add_blob_provided crypto config hash c cs i =
    let content = c ∷ cs in
    let e1 = str_eq_iff (blobref (sha1_key crypto config content)) hash in
    let e2 = str_eq_iff (blobref (sha256_key crypto config content)) hash in
    let e = add_blob_eq crypto config (some hash) c cs i in
    elim (Bool-cases (fits crypto config content (some hash))) [
      | inl fit ↦ inl (or_of fit e1 e2, accepted crypto config content i, e ∙ rw fit refl)
      | inr unfit ↦ inr (
        λ s. ground arith,
        λ s. ground arith,
        refused crypto config content i,
        e ∙ rw unfit refl,
        refl,
        refl,
        refl,
      )
    ]
