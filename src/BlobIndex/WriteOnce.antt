-- ===== src/BlobIndex/WriteOnce.antt =====
-- Files are written once: what add_blob finds on disk stays as it is. So two contents with one
-- digest share the file of the first, and the digest sees a content only up to its first NUL.
use camlispp.Prelude.{
  ℕ, ◌≡◌, ◌≢◌, sym, ap, ◌∙◌, subst, true, ◌∷◌, ◌++◌, Option, none, some, arith, inl, inr, All,
  get_elem?,
}
use camlispp.StdString.{Bytes, str_eq_iff, str_eq_refl, c_str, c_str_append_nul}
use camlispp.StdMap.{IsSorted}
use camlispp.BlobKey.{blobref}
use camlispp.BlobKey.Order.{key_order}
use camlispp.Config.{Config}
use camlispp.Hash.{Crypto, sha256_of}
use camlispp.BlobIndex.Defs.{done, blob_path, Disk, BlobIndex, add_blob, get, write_file}
use camlispp.BlobIndex.Spec.{sha256_key, path_of, stored, full_blob}
use camlispp.BlobIndex.Lookup.{add_blob_inversion, get-add_blob}

pub stored_keeps :
    (crypto : Crypto) (config : Config) (content : Bytes) (d : Disk) (path old : Bytes)
    → d.file path ≡ some old
    → (stored crypto config content d).file path ≡ some old
unfolding write_file
stored_keeps crypto config content d path old h =
    ground (arith, str_eq_iff (path_of crypto config content) path)

-- A file that exists keeps its content through every add_blob that returns.
pub add_blob_write_once :
    (crypto : Crypto) (config : Config) (provided : Option Bytes) (content : Bytes)
    (i j : BlobIndex) (r : Option ℕ) (path old : Bytes)
    → add_blob crypto config provided content i ≡ done (r, j)
    → i.disk.file path ≡ some old
    → j.disk.file path ≡ some old
add_blob_write_once crypto config provided content i j r path old e h =
    elim (add_blob_inversion crypto config provided content i (r, j) e) [
      | inl (fit, z) ↦
          rw (ap (λ (q : Option ℕ × BlobIndex). q.1) z)
            (stored_keeps crypto config content i.disk path old h)
      | inr (unfit, z) ↦ rw (ap (λ (q : Option ℕ × BlobIndex). q.1) z) h
    ]

-- A content that is accepted has a file if its path can be written: the one that was there, or
-- one with that content.
pub accepted_file :
    (crypto : Crypto) (config : Config) (provided : Option Bytes) (content : Bytes)
    (i j : BlobIndex) (p : ℕ)
    → add_blob crypto config provided content i ≡ done (some p, j)
    → i.disk.file (path_of crypto config content) ≡ none
    → i.disk.writable (path_of crypto config content) ≡ true
    → j.disk.file (path_of crypto config content) ≡ some content
unfolding write_file
accepted_file crypto config provided content i j p e h w =
    elim (add_blob_inversion crypto config provided content i (some p, j) e) [
      | inl (fit, z) ↦
          rw (ap (λ (q : Option ℕ × BlobIndex). q.1) z)
            (ground (arith, str_eq_refl (path_of crypto config content)))
      | inr (unfit, z) ↦ absurd (cc (ap (λ (q : Option ℕ × BlobIndex). q.0) z))
    ]

same_path :
    (crypto : Crypto) (config : Config) (a b : Bytes)
    → c_str a ≡ c_str b
    → path_of crypto config a ≡ path_of crypto config b
unfolding sha256_of
same_path crypto config a b e = ap (λ (t : Bytes). blob_path crypto config (crypto.sha256_hex t)) e

-- Two contents that differ only behind a first NUL byte share a file: when the first is added to an
-- index whose map is in order and whose disk has no file at its path and can be written there, and
-- the second is added after it, the text of the second leads to the blob made for the second, and
-- the file at its path holds the first content.
pub add_blob_nul_collision :
    (crypto : Crypto) (config : Config) (s x y : Bytes) (i j k : BlobIndex) (p q : ℕ)
    → All (λ c. c ≢ 0) s
    → IsSorted i.blobs
    → i.disk.file (path_of crypto config (s ++ 0 ∷ x)) ≡ none
    → i.disk.writable (path_of crypto config (s ++ 0 ∷ x)) ≡ true
    → add_blob crypto config none (s ++ 0 ∷ x) i ≡ done (some p, j)
    → add_blob crypto config none (s ++ 0 ∷ y) j ≡ done (some q, k)
    → (get (blobref (sha256_key crypto config (s ++ 0 ∷ y))) k ≡ some q)
      × (get_elem? k.heap q ≡ some (full_blob crypto config (s ++ 0 ∷ y)))
      × (k.disk.file (path_of crypto config (s ++ 0 ∷ y)) ≡ some (s ++ 0 ∷ x))
add_blob_nul_collision crypto config s x y i j k p q n o absent w first second =
    let a = s ++ 0 ∷ x in
    let b = s ++ 0 ∷ y in
    let same : c_str a ≡ c_str b = c_str_append_nul s x n ∙ sym (c_str_append_nul s y n) in
    let one = get-add_blob crypto config none a i j p o first in
    let two = get-add_blob crypto config none b j k q one.sorted second in
    let kept = accepted_file crypto config none a i j p first absent w in
    (
      two.by_sha256,
      two.blob_at,
      add_blob_write_once crypto config none b j k (some q) _ a second
          (subst (λ (z : Bytes). j.disk.file z ≡ some a) (same_path crypto config a b same) kept),
    )
