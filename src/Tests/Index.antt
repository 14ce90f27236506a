-- ===== src/Tests/Index.antt =====
-- Tests of the index: a blob that is added, one whose text does not fit, and pages of the index.
use camlispp.Prelude.{
  ℕ, zero, suc, ◌<◌, ◌≡◌, ◌⊎◌, ◌≢◌, refl, [], ◌∷◌, ◌++◌, none, some, arith, take, All, get_elem?,
}
use camlispp.StdString.{Bytes, bytes}
use camlispp.StdMap.{StdMap, IsSorted, IsAbove}
use camlispp.BlobKey.{BlobKey, blobref, key_lt}
use camlispp.BlobKey.Order.{key_order}
use camlispp.BlobIndex.{
  BlobIndex, done, add_blob, add_blob_eq, accepted, bare_blob, path_of, get, full_blob, sha1_key,
  sha256_key, paginate, page_start,
}
use camlispp.BlobIndex.Lookup.{Finds, get-add_blob, add_blob_provided}
use camlispp.BlobIndex.WriteOnce.{accepted_file, add_blob_write_once, add_blob_nul_collision}
use camlispp.BlobIndex.Pages.{IsPlain, paginate-take}
use camlispp.Tests.{test_crypto, test_config, test_disk, test_index}

abbrev text : Bytes
text = bytes "hello"

abbrev after_text : BlobIndex
after_text = accepted test_crypto test_config text test_index

get-add_blob_example : Finds test_crypto test_config text test_index after_text 0
get-add_blob_example =
    get-add_blob test_crypto test_config none text test_index after_text 0 tt
      (add_blob_eq test_crypto test_config none b'h' (bytes "ello") test_index)

-- `n` keys of type sha1, from the value `c` on
abbrev pub numbered : ℕ → ℕ → StdMap BlobKey ℕ
numbered zero c = []
numbered (suc n) c =
    (record { hash_type = bytes "sha1"; hash_value = c ∷ [] }, c) ∷ numbered n (suc c)

numbered-IsAbove :
    (n j c : ℕ)
    → j < c
    → IsAbove (record { hash_type = bytes "sha1"; hash_value = j ∷ [] }) (numbered n c)
unfolding key_lt
numbered-IsAbove zero j c h = tt
numbered-IsAbove (suc n) j c h = (ground arith, numbered-IsAbove n j (suc c) (omega arith))

pub numbered-IsSorted : (n c : ℕ) → IsSorted (numbered n c)
numbered-IsSorted zero c = tt
numbered-IsSorted (suc n) c =
    (numbered-IsAbove n c (suc c) (omega arith), numbered-IsSorted n (suc c))

pub numbered-IsPlain : (n c : ℕ) → All IsPlain (numbered n c)
numbered-IsPlain zero c = tt
numbered-IsPlain (suc n) c = ((ground arith, ground arith), numbered-IsPlain n (suc c))

abbrev many : BlobIndex
many = record test_index { blobs = numbered 27 1 }

paginate-take_example : paginate [] none 26 many ≡ take 26 (page_start none (numbered 27 1))
paginate-take_example = paginate-take none 26 many (ground arith)

abbrev wrong : Bytes
wrong = bytes "sha1-jello"

add_blob_provided_example :
    (((blobref (sha1_key test_crypto test_config text) ≡ wrong)
        ⊎ (blobref (sha256_key test_crypto test_config text) ≡ wrong))
      × (j : BlobIndex) × (add_blob test_crypto test_config (some wrong) text test_index
          ≡ done (some 0, j)))
    ⊎ ((blobref (sha1_key test_crypto test_config text) ≢ wrong)
        × (blobref (sha256_key test_crypto test_config text) ≢ wrong)
        × (j : BlobIndex) × (add_blob test_crypto test_config (some wrong) text test_index
            ≡ done (none, j))
        × (j.blobs ≡ [])
        × (j.disk.file ≡ test_disk.file)
        × (j.heap ≡ bare_blob test_crypto test_config text ∷ []))
add_blob_provided_example =
    add_blob_provided test_crypto test_config wrong b'h' (bytes "ello") test_index

abbrev twice : BlobIndex
twice = accepted test_crypto test_config (bytes "more") after_text

add_blob_write_once_example : twice.disk.file (path_of test_crypto test_config text) ≡ some text
add_blob_write_once_example =
    add_blob_write_once test_crypto test_config none (bytes "more") after_text twice (some 1)
      (path_of test_crypto test_config text) text
      (add_blob_eq test_crypto test_config none b'm' (bytes "ore") after_text)
      (accepted_file test_crypto test_config none text test_index after_text 0
        (add_blob_eq test_crypto test_config none b'h' (bytes "ello") test_index) refl refl)

abbrev nul_x : Bytes
nul_x = bytes "a" ++ 0 ∷ bytes "x"

abbrev nul_y : Bytes
nul_y = bytes "a" ++ 0 ∷ bytes "y"

abbrev after_x : BlobIndex
after_x = accepted test_crypto test_config nul_x test_index

abbrev after_y : BlobIndex
after_y = accepted test_crypto test_config nul_y after_x

add_blob_nul_collision_example :
    (get (blobref (sha256_key test_crypto test_config nul_y)) after_y ≡ some 1)
    × (get_elem? after_y.heap 1 ≡ some (full_blob test_crypto test_config nul_y))
    × (after_y.disk.file (path_of test_crypto test_config nul_y) ≡ some nul_x)
add_blob_nul_collision_example =
    add_blob_nul_collision test_crypto test_config (bytes "a") (bytes "x") (bytes "y") test_index
      after_x after_y 0 1 (ground arith) tt refl refl
      (add_blob_eq test_crypto test_config none b'a' (0 ∷ bytes "x") test_index)
      (add_blob_eq test_crypto test_config none b'a' (0 ∷ bytes "y") after_x)
