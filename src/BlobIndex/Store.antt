-- ===== src/BlobIndex/Store.antt =====
-- The contract of the index: a store of contents by key. Contents are put in one after the other,
-- and the index with its heap, its map and its files shows what the store shows.
pub mod Step
pub mod Runs
use camlispp.Prelude.{
  ℕ, zero, suc, ◌↔◌, get_elem?-append_new, ◌≡◌, ◌≢◌, refl, sym, ap, ◌∙◌, subst, ◌⊎◌, inl, inr, Bool,
  true, false, ◌||◌, List, [], ◌∷◌, ◌++◌, Option, none, some, arith, if◌then◌else◌, length,
  get_elem?, All, All-weaken, Bool-cases, ◌<◌,
}
use mathlib.Core.Path.{fun_ext}
use camlispp.StdString.{Bytes, str_eq, str_eq_iff, str_eq_refl}
use camlispp.StdMap.{IsSorted, find, assign, find-assign_self, find-assign_ne, assign-IsSorted}
use camlispp.BlobKey.{BlobKey, cmpr_blob_key}
use camlispp.BlobKey.Order.{key_order, key_lt_total, cmpr_blob_key-key_lt}
use camlispp.Blob.{Blob, add_hash, set_size, new_blob}
use camlispp.Config.{Config}
use camlispp.Hash.{Crypto}
use camlispp.BlobIndex.Defs.{
  Outcome, aborted, done, Disk, BlobIndex, empty_index, add_blob, is_some, write_file,
}
use camlispp.BlobIndex.Spec.{
  sha1_key, sha256_key, path_of, full_blob, accepted, stored, add_blob_eq,
}
use camlispp.BlobIndex.WriteOnce.{stored_keeps}

-- The abstract store.
abbrev pub Store : Type 0
Store = BlobKey → Option Bytes

abbrev pub empty_store : Store
empty_store k = none

-- The content of the file that a key leads to.
abbrev pub file_of : Disk → Option Blob → Option Bytes
file_of d none = none
file_of d (some b) = d.file b.file_path

abbrev pub file_at : List Blob → Disk → Option ℕ → Option Bytes
file_at heap d none = none
file_at heap d (some p) = file_of d (get_elem? heap p)

abbrev pub content_at : BlobIndex → Store
content_at i k = file_at i.heap i.disk (find k i.blobs)

-- Every key leads to a blob of the heap whose file is there, under a path with no NUL byte.
abbrev pub IsFilled : BlobIndex → Type 0
IsFilled i =
    (k : BlobKey)
    → (p : ℕ) → find k i.blobs ≡ some p
    → (b : Blob) × (c : Bytes) × (get_elem? i.heap p ≡ some b)
      × (i.disk.file b.file_path ≡ some c)
      × All (λ x. x ≢ 0) b.file_path

module _ (crypto : Crypto) (config : Config) where
  -- a content is put under its two keys
  abbrev pub put : Bytes → Store → Store
  put content s k =
      if cmpr_blob_key k (sha1_key crypto config content)
        || cmpr_blob_key k (sha256_key crypto config content)
      then some content
      else s k

  abbrev pub put_all : List Bytes → Store → Store
  put_all [] s = s
  put_all (content ∷ contents) s = put_all contents (put content s)

  -- add_blob for each content, with no provided text
  abbrev pub add_all : List Bytes → BlobIndex → Outcome BlobIndex
  add_all [] i = done i
  add_all (content ∷ contents) i = elim (add_blob crypto config none content i) [
    | aborted ↦ aborted
    | done (r, j) ↦ add_all contents j
  ]

  -- The path of the content has no NUL byte; it has no file and can be written, or its file holds
  -- the content.
  abbrev pub HasRoom : Disk → Bytes → Type 0
  HasRoom d content =
      All (λ x. x ≢ 0) (path_of crypto config content)
      × ((d.file (path_of crypto config content) ≡ none)
            × (d.writable (path_of crypto config content) ≡ true)
          ⊎ (d.file (path_of crypto config content) ≡ some content))

  -- Two contents with one path are the same.
  abbrev pub NoClash : Bytes → Bytes → Type 0
  NoClash a b = path_of crypto config a ≡ path_of crypto config b → a ≡ b

  abbrev pub NoClashes : List Bytes → Type 0
  NoClashes [] = Unit
  NoClashes (content ∷ contents) = All (NoClash content) contents × NoClashes contents

-- What the refinement asks for of an index.
pub record IsStore (i : BlobIndex) : Type 0 where
  pub sorted : IsSorted i.blobs
  pub filled : IsFilled i

-- an index with no entries
pub empty_index-IsStore : (d : Disk) → IsStore (empty_index d)
unfolding find
empty_index-IsStore d = record { sorted = tt; filled = λ k p e. cc }
