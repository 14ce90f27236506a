-- ===== src/Sync/Reading.antt =====
-- What the thread reads of the answers that the handlers of this program give.
use camlispp.Prelude.{
  ℕ, ◌+◌, ◌≡◌, refl, sym, ap, ◌∙◌, inl, inr, List, [], ◌∷◌, ◌++◌, Option, none, some, ltb,
  append-nil, append_assoc, Bool-cases, Option-cases,
}
use camlispp.StdString.{Bytes, bytes, str_eq}
use camlispp.BlobKey.{BlobKey, blobref}
use camlispp.BlobIndex.{Outcome, done, BlobIndex, get}
use camlispp.Http.RequestHandler.{
  Fields, end, field, str, continue_field, Items, nil, cons, shown, stat_items, continue_after,
  enumeration_json, stat_json, blob_json, size_at,
}
use camlispp.Http.RequestHandler.Enumeration.{item_refs}
use camlispp.Sync.Enumeration.{
  SyncEnumeration, new_enumeration, last, as_some, ◌>>=◌, add_blob_ref, put_last, read_blob,
  read_blobs, read_last, read_list, read_fields, enumeration_of,
}

abbrev with_refs : List Bytes → SyncEnumeration → SyncEnumeration
with_refs refs e = record e { blob_refs = e.blob_refs ++ refs }

read_blobs-cons :
    (ref : Bytes) (size : ℕ) (js : Items) (e : SyncEnumeration)
    → read_blobs (cons (blob_json ref size) js) e ≡ read_blobs js (add_blob_ref ref e)
unfolding read_blobs read_blob str_eq
read_blobs-cons ref size js e = refl

with_refs-cons :
    (ref : Bytes) (refs : List Bytes) (e : SyncEnumeration)
    → with_refs refs (add_blob_ref ref e) ≡ with_refs (ref ∷ refs) e
unfolding add_blob_ref
with_refs-cons ref refs e =
    ap (λ (rs : List Bytes). record e { blob_refs = rs }) (append_assoc e.blob_refs (ref ∷ []) refs)

read_blobs-nil : (e : SyncEnumeration) → read_blobs nil e ≡ done (with_refs [] e)
unfolding read_blobs
read_blobs-nil e =
    ap (λ (rs : List Bytes). done (record e { blob_refs = rs })) (sym (append-nil e.blob_refs))

read_blobs-shown :
    (k : ℕ) (i : BlobIndex) (page : List (BlobKey × ℕ)) (e : SyncEnumeration)
    → read_blobs (shown k i page) e ≡ done (with_refs (item_refs (shown k i page)) e)
unfolding shown
read_blobs-shown k i [] e = read_blobs-nil e
read_blobs-shown k i ((key, p) ∷ page) e = elim (Bool-cases (ltb k 25)) [
  | inl small ↦
      rw (small, shown)
        (read_blobs-cons (blobref key) (size_at i p) (shown (k + 1) i page) e
          ∙ read_blobs-shown (k + 1) i page (add_blob_ref (blobref key) e)
          ∙ ap done (with_refs-cons (blobref key) (item_refs (shown (k + 1) i page)) e))
  | inr large ↦ rw (large, shown) (read_blobs-shown (k + 1) i page e)
]

-- the field behind the list of an enumeration
abbrev poll_field : Fields
poll_field = field (bytes "canLongPoll") (str (bytes "false")) end

abbrev with_last : Option Bytes → SyncEnumeration → SyncEnumeration
with_last none e = e
with_last (some ref) e = put_last ref e

read_fields-continue :
    (after : Option Bytes) (e : SyncEnumeration)
    → read_fields (continue_field after poll_field) e ≡ done (with_last after e)
unfolding read_fields read_last read_list str_eq
read_fields-continue none e = refl
read_fields-continue (some ref) e = refl

enumeration_of-list :
    (i : BlobIndex) (page : List (BlobKey × ℕ))
    → enumeration_of (enumeration_json i page)
      ≡ as_some (
          read_blobs (shown 0 i page) new_enumeration >>= λ e.
          read_fields (continue_field (continue_after page) poll_field) e)
unfolding enumeration_of read_fields read_last read_list str_eq
enumeration_of-list i page = refl

with_last-last :
    (after : Option Bytes) (refs : List Bytes)
    → (last (with_last after (with_refs refs new_enumeration)) ≡ after)
      × ((with_last after (with_refs refs new_enumeration)).blob_refs ≡ refs)
unfolding last put_last
with_last-last none refs = (refl, refl)
with_last-last (some ref) refs = (refl, refl)

-- The thread reads from the JSON of an enumeration the texts that it shows, in their order, and
-- the text of its "continueAfter", or none where it has none.
pub enumeration_of-enumeration_json :
    (i : BlobIndex) (page : List (BlobKey × ℕ))
    → (e : SyncEnumeration) × (enumeration_of (enumeration_json i page) ≡ done (some e))
      × (last e ≡ continue_after page)
      × (e.blob_refs ≡ item_refs (shown 0 i page))
enumeration_of-enumeration_json i page =
    let refs = item_refs (shown 0 i page) in
    let after = continue_after page in
    let (same_last, same_refs) = with_last-last after refs in
    (
      with_last after (with_refs refs new_enumeration),
      enumeration_of-list i page
          ∙ ap
              (λ (o : Outcome SyncEnumeration).
                as_some (o >>= λ e. read_fields (continue_field after poll_field) e))
              (read_blobs-shown 0 i page new_enumeration)
          ∙ ap as_some (read_fields-continue after (with_refs refs new_enumeration)),
      same_last,
      same_refs,
    )

-- The texts that lead to a blob, in their order.
abbrev pub known_refs : BlobIndex → List Bytes → List Bytes
known_refs i [] = []
known_refs i (ref ∷ refs) = elim (get ref i) [
  | none ↦ known_refs i refs
  | some p ↦ ref ∷ known_refs i refs
]

read_blobs-stat_items :
    (i : BlobIndex) (refs : List Bytes) (e : SyncEnumeration)
    → read_blobs (stat_items i refs) e ≡ done (with_refs (known_refs i refs) e)
unfolding stat_items
read_blobs-stat_items i [] e = read_blobs-nil e
read_blobs-stat_items i (ref ∷ refs) e = elim (Option-cases (get ref i)) [
  | inl absent ↦ rw (absent, stat_items, known_refs) (read_blobs-stat_items i refs e)
  | inr (p, found) ↦
      rw (found, stat_items, known_refs)
        (read_blobs-cons ref (size_at i p) (stat_items i refs) e
          ∙ read_blobs-stat_items i refs (add_blob_ref ref e)
          ∙ ap done (with_refs-cons ref (known_refs i refs) e))
]

enumeration_of-stat_list :
    (i : BlobIndex) (refs : List Bytes)
    → enumeration_of (stat_json i refs)
      ≡ as_some (read_blobs (stat_items i refs) new_enumeration >>= λ e. done e)
unfolding enumeration_of read_fields read_last read_list str_eq
enumeration_of-stat_list i refs = refl

-- The thread reads from the JSON of a stat the texts that were asked about and lead to a blob, in
-- their order, and no text to continue after.
pub enumeration_of-stat_json :
    (i : BlobIndex) (refs : List Bytes)
    → (e : SyncEnumeration) × (enumeration_of (stat_json i refs) ≡ done (some e))
      × (last e ≡ none)
      × (e.blob_refs ≡ known_refs i refs)
enumeration_of-stat_json i refs =
    let (same_last, same_refs) = with_last-last none (known_refs i refs) in
    (
      with_refs (known_refs i refs) new_enumeration,
      enumeration_of-stat_list i refs
          ∙ ap (λ (o : Outcome SyncEnumeration). as_some (o >>= λ e. done e))
              (read_blobs-stat_items i refs new_enumeration),
      same_last,
      same_refs,
    )
