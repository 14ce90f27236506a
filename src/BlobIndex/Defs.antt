-- ===== src/BlobIndex/Defs.antt =====
-- The state and the operations of BlobIndex. A `Blob*` is an address, an index into `heap`; a
-- null pointer is `none`. The operations are functions of the state: calls are taken one at a
-- time. The mutex ensures this for all of them but paginate, which reads the map without it; a
-- page that is read beside an add_blob on another thread is a data race, and not modelled.
use camlispp.Prelude.{
  ℕ, ◌%◌, ◌^◌, Bool, true, false, not, ◌||◌, List, [], ◌∷◌, ◌++◌, Option, none, some, map, leb,
  if◌then◌else◌, length, get_elem?, set,
}
use camlispp.StdString.{Bytes, bytes, str_eq, ends_with, substr_n}
use camlispp.StdMap.{StdMap, assign, find, lower_bound}
use camlispp.BlobKey.{BlobKey, blobref, create_blob_key}
use camlispp.BlobKey.Order.{key_order}
use camlispp.Blob.{Blob, new_blob, set_size, add_hash}
use camlispp.Config.{Config}
use camlispp.Hash.{HashType, sha1, sha256, Crypto, sha1_of, sha256_of}

-- A failed assert ends the process.
pub data Outcome {ℓ} (A : Type ℓ) : Type ℓ where
  aborted : Outcome A
  done : A → Outcome A

-- The file system: the content of each file, the files that can be written, and the directories
-- that the program has asked for. A write that cannot be made is skipped, as `ofstream` does.
pub record Disk : Type 0 where
  pub file : Bytes → Option Bytes
  pub writable : Bytes → Bool
  pub directories : List Bytes

unfoldable pub update : (Bytes → Option Bytes) → Bytes → Bytes → Bytes → Option Bytes
unfolding str_eq
update f path content p = if str_eq path p then some content else f p

unfoldable pub write_file : Bytes → Bytes → Disk → Disk
unfolding update
write_file path content d =
    if d.writable path then record d { file = update d.file path content } else d

abbrev pub is_some {ℓ} : {A : Type ℓ} → Option A → Bool
is_some none = false
is_some (some a) = true

pub record BlobIndex : Type 0 where
  pub heap : List Blob
  pub blobs : StdMap BlobKey ℕ
  pub disk : Disk

abbrev pub empty_index : Disk → BlobIndex
empty_index d = record { heap = []; blobs = []; disk = d }

-- `*p = f(*p)`
unfoldable pub modify : ℕ → (Blob → Blob) → List Blob → List Blob
modify p f heap = elim (get_elem? heap p) [ none ↦ heap | some b ↦ set heap p (f b) ]

-- the loop that sets `found`
unfoldable pub any_blobref : Bytes → List BlobKey → Bool
unfolding str_eq blobref
any_blobref hash [] = false
any_blobref hash (k ∷ ks) = str_eq (blobref k) hash || any_blobref hash ks

unfoldable pub provided_fits : Option Bytes → List BlobKey → Bool
unfolding any_blobref create_blob_key
provided_fits none keys = true
provided_fits (some hash) keys = elim (create_blob_key hash) [
  | none ↦ false
  | some k ↦ any_blobref hash keys
]

-- the loop that adds the keys of the blob at `p`
unfoldable pub register : ℕ → List BlobKey → BlobIndex → BlobIndex
unfolding modify blobref add_hash assign
register p [] i = i
register p (k ∷ ks) i =
    register p ks
      (record i { heap = modify p (add_hash (blobref k)) i.heap; blobs = assign k p i.blobs })

module _ (crypto : Crypto) (config : Config) where
  abbrev pub blob_directory : Bytes → Bytes
  blob_directory hash =
      let directory = config.directory in
      (if not (ends_with directory b'/') then directory ++ (b'/' ∷ []) else directory)
      ++ (substr_n hash 0 3 ++ (b'/' ∷ []))

  abbrev pub blob_path : Bytes → Bytes
  blob_path hash = blob_directory hash ++ (hash ++ bytes ".dat")

  -- create_path: the path, and the directory made on the way
  unfoldable pub create_path : Bytes → Disk → Bytes × Disk
  create_path hash d =
      (blob_path hash, record d { directories = blob_directory hash ∷ d.directories })

  unfoldable pub key_for : Bytes → HashType → BlobKey
  unfolding sha1_of sha256_of
  key_for content sha1 = record { hash_type = bytes "sha1"; hash_value = sha1_of crypto content }
  key_for content sha256 = record {
    hash_type = bytes "sha256";
    hash_value = sha256_of crypto content;
  }

  -- add_blob with its three arguments
  unfoldable pub add_blob_as :
      Option Bytes → Bytes → List HashType → BlobIndex → Outcome (Option ℕ × BlobIndex)
  unfolding create_path new_blob set_size key_for provided_fits register write_file sha256_of
  add_blob_as provided [] types i = aborted
  add_blob_as provided (c ∷ cs) types i =
      let content = c ∷ cs in
      let (path, made) = create_path (sha256_of crypto content) i.disk in
      let p = length i.heap in
      let allocated : BlobIndex = record i {
        heap = i.heap ++ (set_size (length content) (new_blob path) ∷ []);
        disk = made;
      } in
      let keys = map (key_for content) types in
      let added = register p keys allocated in
      let stored = if not (is_some (made.file path)) then write_file path content made else made in
      if provided_fits provided keys
      then done (some p, record added { disk = stored })
      else done (none, allocated)

  unfoldable pub add_blob : Option Bytes → Bytes → BlobIndex → Outcome (Option ℕ × BlobIndex)
  unfolding add_blob_as
  add_blob provided content i = add_blob_as provided content (sha1 ∷ sha256 ∷ []) i

unfoldable pub get : Bytes → BlobIndex → Option ℕ
unfolding create_blob_key find
get hash i = elim (create_blob_key hash) [ none ↦ none | some k ↦ find k i.blobs ]

unfoldable pub empty : BlobIndex → Bool
empty i = elim i.blobs [ [] ↦ true | _ ∷ _ ↦ false ]

-- the int has the low 32 bits of the size_t
unfoldable pub size : BlobIndex → ℕ
size i = length i.blobs % 2 ^ 32

-- where the iterator of paginate starts
unfoldable pub page_start : Option Bytes → StdMap BlobKey ℕ → StdMap BlobKey ℕ
unfolding create_blob_key lower_bound
page_start none m = m
page_start (some last) m = elim (create_blob_key last) [ none ↦ m | some b ↦ lower_bound b m ]

-- the loop of paginate: the entry is pushed before the count is compared
unfoldable pub paginate_from : StdMap BlobKey ℕ → List (BlobKey × ℕ) → ℕ → List (BlobKey × ℕ)
paginate_from [] out count = out
paginate_from (e ∷ m) out count =
    let pushed = out ++ (e ∷ []) in
    let rest = paginate_from m pushed count in if leb count (length pushed) then pushed else rest

unfoldable pub paginate : List (BlobKey × ℕ) → Option Bytes → ℕ → BlobIndex → List (BlobKey × ℕ)
unfolding page_start paginate_from
paginate out last count i = paginate_from (page_start last i.blobs) out count
