-- ===== src/Sync/Enumeration.antt =====
-- SyncEnumeration, and the reader of a server's answer. A getter of json_spirit throws on a value
-- of another type, which nothing catches, so it ends the process.
use camlispp.Prelude.{
  Bool, true, false, ◌||◌, List, [], ◌∷◌, ◌++◌, Option, none, some, if◌then◌else◌,
}
use camlispp.StdString.{Bytes, bytes, str_eq}
use camlispp.BlobIndex.{Outcome, aborted, done}
use camlispp.Http.RequestHandler.{Json, obj, arr, str, Fields, end, field, Items, nil, cons}

pub record SyncEnumeration : Type 0 where
  pub set_last : Bool
  pub last_ref : Bytes
  pub blob_refs : List Bytes

abbrev pub new_enumeration : SyncEnumeration
new_enumeration = record { set_last = false; last_ref = []; blob_refs = [] }

-- SyncEnumeration::last()
unfoldable pub last : SyncEnumeration → Option Bytes
last e = if e.set_last then some e.last_ref else none

-- SyncEnumeration::last(std::string)
unfoldable pub put_last : Bytes → SyncEnumeration → SyncEnumeration
put_last ref e = record e { last_ref = ref; set_last = true }

unfoldable pub add_blob_ref : Bytes → SyncEnumeration → SyncEnumeration
add_blob_ref ref e = record e { blob_refs = e.blob_refs ++ (ref ∷ []) }

infixl 5 ◌>>=◌
abbrev pub ◌>>=◌ {ℓ κ} : {A : Type ℓ} {B : Type κ} → Outcome A → (A → Outcome B) → Outcome B
aborted >>= f = aborted
done a >>= f = f a

abbrev pub get_str : Json → Outcome Bytes
get_str (str s) = done s
get_str _ = aborted

abbrev pub get_array : Json → Outcome Items
get_array (arr items) = done items
get_array _ = aborted

abbrev pub get_obj : Json → Outcome Fields
get_obj (obj fields) = done fields
get_obj _ = aborted

-- the loop over the fields of one blob
unfoldable pub read_blob : Fields → SyncEnumeration → Outcome SyncEnumeration
unfolding str_eq add_blob_ref
read_blob end e = done e
read_blob (field name value rest) e =
    if str_eq name (bytes "blobRef")
    then (get_str value >>= λ s. read_blob rest (add_blob_ref s e))
    else read_blob rest e

-- the loop over the blobs
unfoldable pub read_blobs : Items → SyncEnumeration → Outcome SyncEnumeration
unfolding read_blob
read_blobs nil e = done e
read_blobs (cons j js) e = get_obj j >>= λ fields. read_blob fields e >>= λ e'. read_blobs js e'

unfoldable pub read_last : Bytes → Json → SyncEnumeration → Outcome SyncEnumeration
unfolding str_eq put_last
read_last name value e =
    if str_eq name (bytes "continueAfter")
    then (get_str value >>= λ s. done (put_last s e))
    else done e

unfoldable pub read_list : Bytes → Json → SyncEnumeration → Outcome SyncEnumeration
unfolding str_eq read_blobs
read_list name value e =
    if str_eq name (bytes "blobs") || str_eq name (bytes "stat")
    then (get_array value >>= λ items. read_blobs items e)
    else done e

-- the loop over the fields of the answer
unfoldable pub read_fields : Fields → SyncEnumeration → Outcome SyncEnumeration
unfolding read_last read_list
read_fields end e = done e
read_fields (field name value rest) e =
    read_last name value e >>= λ e'. read_list name value e' >>= λ e''. read_fields rest e''

abbrev pub as_some : Outcome SyncEnumeration → Outcome (Option SyncEnumeration)
as_some aborted = aborted
as_some (done e) = done (some e)

unfoldable pub enumeration_of : Json → Outcome (Option SyncEnumeration)
unfolding read_fields
enumeration_of (obj fields) = as_some (read_fields fields new_enumeration)
enumeration_of _ = done none

-- parse_sync_enumeration; `read_json` stands for json_spirit::read
unfoldable pub parse_sync_enumeration :
    (Bytes → Option Json) → Bytes → Outcome (Option SyncEnumeration)
unfolding enumeration_of
parse_sync_enumeration read_json content = elim (read_json content) [
  | none ↦ done none
  | some value ↦ enumeration_of value
]
