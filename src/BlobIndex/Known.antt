-- ===== src/BlobIndex/Known.antt =====
-- Texts that lead to a blob still do so after add_blob.
use camlispp.Prelude.{ℕ, ◌≡◌, sym, ◌∙◌, List, some, arith, length, Bool-cases, inl, inr}
use camlispp.StdString.{Bytes}
use camlispp.StdMap.{
  StrictOrder, find, assign, IsSorted, find-assign_self, find-assign_ne, assign-IsSorted,
}
use camlispp.BlobKey.Order.{key_order}
use camlispp.BlobKey.RoundTrip.{create_blob_key_total}
use camlispp.Config.{Config}
use camlispp.Hash.{Crypto}
use camlispp.BlobIndex.Defs.{BlobIndex, get}
use camlispp.BlobIndex.Spec.{sha1_key, sha256_key, accepted}
use camlispp.BlobIndex.Lookup.{get-find}

-- The text leads to a blob.
abbrev pub IsKnown : BlobIndex → Bytes → Type 0
IsKnown i hash = (p : ℕ) × (get hash i ≡ some p)

find-assign_known :
    {K V : Type 0}
    → ⦃o : StrictOrder K⦄ → (k h : K) (v w : V) (m : List (K × V)) → IsSorted m
    → find h m ≡ some w
    → (u : V) × (find h (assign k v m) ≡ some u)
find-assign_known ⦃o⦄ k h v w m s e = elim (Bool-cases (o.lt k h)) [
  | inl above ↦ (w, find-assign_ne k h v m s (λ q. ground (arith, o.irrefl h)) ∙ e)
  | inr above ↦ elim (Bool-cases (o.lt h k)) [
    | inl below ↦ (w, find-assign_ne k h v m s (λ q. ground (arith, o.irrefl h)) ∙ e)
    | inr below ↦ rw (o.total k h above below) (v, find-assign_self h v m)
  ]
]

module _ (crypto : Crypto) (config : Config) where
  pub accepted-IsKnown :
      (content : Bytes) (i : BlobIndex) (hash : Bytes)
      → IsSorted i.blobs
      → IsKnown i hash
      → IsKnown (accepted crypto config content i) hash
  accepted-IsKnown content i hash s (p, e) =
      let (k, c) = create_blob_key_total hash in
      let (q, f) =
        find-assign_known (sha1_key crypto config content) k (length i.heap) p i.blobs s
          (sym (get-find hash k i c) ∙ e) in
      let (r, g) =
        find-assign_known (sha256_key crypto config content) k (length i.heap) q _
          (assign-IsSorted _ _ _ s) f in
      (r, get-find hash k (accepted crypto config content i) c ∙ g)
