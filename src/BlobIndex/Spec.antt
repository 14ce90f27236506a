-- ===== src/BlobIndex/Spec.antt =====
-- What add_blob does, with its loops run: the blob that it makes, and the index that it leaves.
use camlispp.Prelude.{
  ℕ, ◌≡◌, refl, Bool, true, not, ◌||◌, List, [], ◌∷◌, ◌++◌, Option, none, some, arith,
  if◌then◌else◌, length, set, get_elem?-append_new, ap,
}
use camlispp.StdString.{Bytes, str_eq}
use camlispp.StdMap.{assign}
use camlispp.BlobKey.{BlobKey, blobref}
use camlispp.BlobKey.Order.{key_order}
use camlispp.BlobKey.RoundTrip.{create_blob_key_total}
use camlispp.Blob.{Blob, new_blob, set_size, add_hash}
use camlispp.Config.{Config}
use camlispp.Hash.{sha1, sha256, Crypto, sha256_of}
use camlispp.BlobIndex.Defs.{
  aborted, done, Disk, BlobIndex, modify, blob_path, blob_directory, key_for, write_file, is_some,
  add_blob, add_blob_as, provided_fits, register, create_path,
}

set_last : (heap : List Blob) (b v : Blob) → set (heap ++ b ∷ []) (length heap) v ≡ heap ++ v ∷ []
set_last [] b v = refl
set_last (x ∷ heap) b v = ap (◌∷◌ x) (set_last heap b v)

modify_last :
    (f : Blob → Blob) (heap : List Blob) (b : Blob)
    → modify (length heap) f (heap ++ b ∷ []) ≡ heap ++ f b ∷ []
unfolding modify
modify_last f [] b = refl
modify_last f (x ∷ heap) b = rw (get_elem?-append_new heap b) (ap (◌∷◌ x) (set_last heap b (f b)))

module _ (crypto : Crypto) (config : Config) (content : Bytes) where
  abbrev pub sha1_key : BlobKey
  sha1_key = key_for crypto config content sha1

  abbrev pub sha256_key : BlobKey
  sha256_key = key_for crypto config content sha256

  abbrev pub path_of : Bytes
  path_of = blob_path crypto config (sha256_of crypto content)

  -- The blob made for the content, before its texts are added.
  abbrev pub bare_blob : Blob
  bare_blob = set_size (length content) (new_blob path_of)

  abbrev pub full_blob : Blob
  full_blob = add_hash (blobref sha256_key) (add_hash (blobref sha1_key) bare_blob)

  abbrev pub made_directory : Disk → Disk
  made_directory d = record d {
    directories = blob_directory crypto config (sha256_of crypto content) ∷ d.directories;
  }

  abbrev pub stored : Disk → Disk
  stored d =
      if not (is_some (d.file path_of))
      then write_file path_of content (made_directory d)
      else made_directory d

  -- The index after a content that is accepted, and after one whose provided text does not fit.
  abbrev pub accepted : BlobIndex → BlobIndex
  accepted i = record {
    heap = i.heap ++ (full_blob ∷ []);
    blobs = assign sha256_key (length i.heap) (assign sha1_key (length i.heap) i.blobs);
    disk = stored i.disk;
  }

  abbrev pub refused : BlobIndex → BlobIndex
  refused i = record i { heap = i.heap ++ (bare_blob ∷ []); disk = made_directory i.disk }

  -- Whether a provided text is the text of one of the two keys.
  abbrev pub fits : Option Bytes → Bool
  fits none = true
  fits (some hash) = str_eq (blobref sha1_key) hash || str_eq (blobref sha256_key) hash

provided_fits-fits :
    (crypto : Crypto) (config : Config) (content : Bytes) (provided : Option Bytes)
    → provided_fits provided
        (sha1_key crypto config content ∷ sha256_key crypto config content ∷ [])
      ≡ fits crypto config content provided
unfolding provided_fits
provided_fits-fits crypto config content none = refl
provided_fits-fits crypto config content (some hash) =
    let (k, e) = create_blob_key_total hash in rw (e, provided_fits) (ground arith)

-- The assert on the size.
pub add_blob_nil :
    (crypto : Crypto) (config : Config) (provided : Option Bytes) (i : BlobIndex)
    → add_blob crypto config provided [] i ≡ aborted
unfolding add_blob add_blob_as
add_blob_nil crypto config provided i = refl

-- The two ends of add_blob for a content that is not empty.
pub add_blob_eq :
    (crypto : Crypto) (config : Config) (provided : Option Bytes) (c : ℕ) (cs : Bytes)
    (i : BlobIndex)
    → add_blob crypto config provided (c ∷ cs) i ≡ (
        if fits crypto config (c ∷ cs) provided
        then done (some (length i.heap), accepted crypto config (c ∷ cs) i)
        else done (none, refused crypto config (c ∷ cs) i))
unfolding add_blob_as add_blob register create_path
add_blob_eq crypto config provided c cs i =
    let content = c ∷ cs in
    let k1 = add_hash (blobref (sha1_key crypto config content)) in
    let k2 = add_hash (blobref (sha256_key crypto config content)) in
    let b = bare_blob crypto config content in
    rw (provided_fits-fits, modify_last k1 i.heap b, modify_last k2 i.heap (k1 b)) (ground arith)
