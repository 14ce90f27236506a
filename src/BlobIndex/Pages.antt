-- ===== src/BlobIndex/Pages.antt =====
-- paginate, and the clients that read the index page by page.
use camlispp.Prelude.{
  ℕ, zero, suc, ◌+◌, ◌-◌, ◌<◌, ◌^◌, ◌≡◌, sym, List, [], ◌∷◌, ◌++◌, Option, some, arith, length,
  take, append-nil, append_assoc, length-append,
}
use camlispp.StdString.{Bytes}
use camlispp.StdMap.{StdMap, IsSorted, lower_bound-split}
use camlispp.BlobKey.{BlobKey, blobref}
use camlispp.BlobKey.Order.{key_order}
use camlispp.BlobKey.RoundTrip.{HasNoDash, create_blob_key-blobref}
use camlispp.BlobIndex.Defs.{BlobIndex, page_start, paginate_from, paginate}

paginate_from-take :
    (m : StdMap BlobKey ℕ) (out : List (BlobKey × ℕ)) (count left : ℕ)
    → length out + suc left ≡ count
    → paginate_from m out count ≡ out ++ take (suc left) m
unfolding paginate_from
paginate_from-take [] out count left h = sym (append-nil out)
paginate_from-take (e ∷ m) out count zero h = ground (arith, length-append out (e ∷ []))
paginate_from-take (e ∷ m) out count (suc left) h = ground (
  arith,
  length-append out (e ∷ []),
  paginate_from-take m (out ++ e ∷ []) count left,
  append_assoc out (e ∷ []) (take (suc left) m),
)

-- With an empty vector and a positive count, paginate returns the first `count` entries from the
-- place where it starts.
pub paginate-take :
    (last : Option Bytes) (count : ℕ) (i : BlobIndex)
    → 0 < count
    → paginate [] last count i ≡ take count (page_start last i.blobs)
unfolding paginate
paginate-take last zero i h = absurd (omega arith)
paginate-take last (suc n) i h =
    paginate_from-take (page_start last i.blobs) [] (suc n) n (omega arith)

-- A key whose text is read back as the key.
abbrev pub IsPlain : BlobKey × ℕ → Type 0
IsPlain e = HasNoDash e.0.hash_type × (length e.0.hash_type < 2 ^ 32 - 1)

-- Starting after the text of an entry's key starts at that entry.
pub page_start-split :
    (front : StdMap BlobKey ℕ) (e : BlobKey × ℕ) (back : StdMap BlobKey ℕ)
    → IsSorted (front ++ e ∷ back)
    → IsPlain e
    → page_start (some (blobref e.0)) (front ++ e ∷ back) ≡ e ∷ back
unfolding page_start
page_start-split front e back s p =
    rw (create_blob_key-blobref e.0 p.0 p.1, page_start) (lower_bound-split front e.0 e.1 back s)
