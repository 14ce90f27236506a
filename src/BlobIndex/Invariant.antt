-- ===== src/BlobIndex/Invariant.antt =====
-- The invariant of the index.
use camlispp.Prelude.{
  ℕ, ◌<◌, ◌≡◌, ap, inl, inr, [], ◌∷◌, ◌++◌, Option, arith, length, length-append, All, All-weaken,
}
use camlispp.StdString.{Bytes}
use camlispp.StdMap.{IsSorted, assign-IsSorted, All-assign}
use camlispp.BlobKey.{BlobKey}
use camlispp.BlobKey.Order.{key_order}
use camlispp.Blob.{Blob}
use camlispp.Config.{Config}
use camlispp.Hash.{Crypto}
use camlispp.BlobIndex.Defs.{Disk, BlobIndex, empty_index, done, add_blob, key_for}
use camlispp.BlobIndex.Spec.{sha1_key, sha256_key, full_blob, accepted, refused}
use camlispp.BlobIndex.Lookup.{add_blob_inversion}
use camlispp.BlobIndex.Pages.{IsPlain}

-- The address of the entry is one of the heap.
abbrev pub IsLive : BlobIndex → BlobKey × ℕ → Type 0
IsLive i e = e.1 < length i.heap

-- The map is in order, the text of every key is read back, and every address is one of the heap.
pub record IsSound (i : BlobIndex) : Type 0 where
  pub sorted : IsSorted i.blobs
  pub plain : All IsPlain i.blobs
  pub live : All (IsLive i) i.blobs

pub empty_index-IsSound : (d : Disk) → IsSound (empty_index d)
empty_index-IsSound d = record { sorted = tt; plain = tt; live = tt }

module _ (crypto : Crypto) (config : Config) (content : Bytes) (i : BlobIndex) where
  sha1_key-IsPlain : (p : ℕ) → IsPlain (sha1_key crypto config content, p)
  unfolding key_for
  sha1_key-IsPlain p = (omega arith, omega arith)

  sha256_key-IsPlain : (p : ℕ) → IsPlain (sha256_key crypto config content, p)
  unfolding key_for
  sha256_key-IsPlain p = (omega arith, omega arith)

  grown-IsLive : (b : Blob) (e : BlobKey × ℕ) → IsLive i e → e.1 < length (i.heap ++ b ∷ [])
  grown-IsLive b e h = omega (arith, length-append i.heap (b ∷ []))

  new-IsLive : (b : Blob) → length i.heap < length (i.heap ++ b ∷ [])
  new-IsLive b = omega (arith, length-append i.heap (b ∷ []))

  accepted-IsSound : IsSound i → IsSound (accepted crypto config content i)
  accepted-IsSound s =
      let new = accepted crypto config content i in
      let b = full_blob crypto config content in
      record {
        sorted = assign-IsSorted _ _ _ (assign-IsSorted _ _ _ s.sorted);
        plain =
            All-assign IsPlain _ _ _ (sha256_key-IsPlain (length i.heap))
              (All-assign IsPlain _ _ _ (sha1_key-IsPlain (length i.heap)) s.plain);
        live = All-assign (IsLive new) _ _ _ (new-IsLive b) (
            All-assign (IsLive new) _ _ _ (new-IsLive b)
              (All-weaken (IsLive i) (IsLive new) i.blobs (grown-IsLive b) s.live));
      }

  refused-IsSound : IsSound i → IsSound (refused crypto config content i)
  refused-IsSound s = record {
    sorted = s.sorted;
    plain = s.plain;
    live =
        All-weaken (IsLive i) (IsLive (refused crypto config content i)) i.blobs (grown-IsLive _)
          s.live;
  }

-- add_blob keeps the invariant, whether it returns a blob or none.
pub add_blob-IsSound :
    (crypto : Crypto) (config : Config) (provided : Option Bytes) (content : Bytes)
    (i j : BlobIndex) (r : Option ℕ)
    → IsSound i
    → add_blob crypto config provided content i ≡ done (r, j)
    → IsSound j
add_blob-IsSound crypto config provided content i j r s e =
    elim (add_blob_inversion crypto config provided content i (r, j) e) [
      | inl (fit, z) ↦
          rw (ap (λ (q : Option ℕ × BlobIndex). q.1) z) (accepted-IsSound crypto config content i s)
      | inr (unfit, z) ↦
          rw (ap (λ (q : Option ℕ × BlobIndex). q.1) z) (refused-IsSound crypto config content i s)
    ]
