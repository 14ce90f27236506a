-- ===== src/Sync/Urls.antt =====
-- The addresses and the request body that the thread builds.
use camlispp.Prelude.{ℕ, ◌+◌, not, List, [], ◌∷◌, ◌++◌, if◌then◌else◌, ltb, length}
use camlispp.StdString.{Bytes, bytes, ends_with, decimal}
use camlispp.BlobKey.{BlobKey, blobref}

unfoldable pub build_stat_url : Bytes → Bytes
build_stat_url host = host ++ bytes "/stat"

unfoldable pub build_enumeration_url : Bytes → Bytes → Bytes
build_enumeration_url host last =
    host
    ++ (bytes "/enumerate-blobs" ++ (if ltb 0 (length last) then bytes "?after=" ++ last else []))

unfoldable pub build_blob_url : Bytes → Bytes → Bytes
unfolding ends_with
build_blob_url host blob_ref =
    host ++ ((if not (ends_with host b'/') then b'/' ∷ [] else []) ++ blob_ref)

-- the loop of stat_request, with its counter
unfoldable pub stat_fields : ℕ → List (BlobKey × ℕ) → Bytes
unfolding decimal blobref
stat_fields n [] = []
stat_fields n ((k, p) ∷ rest) =
    bytes "&blob" ++ (decimal n ++ (b'=' ∷ (blobref k ++ stat_fields (n + 1) rest)))

-- stat_request, with CAMLI_VERSION 1
unfoldable pub stat_request : List (BlobKey × ℕ) → Bytes
unfolding stat_fields
stat_request blobs = bytes "camliversion=1" ++ stat_fields 1 blobs
