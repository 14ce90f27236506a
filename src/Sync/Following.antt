-- ===== src/Sync/Following.antt =====
-- A client that follows "continueAfter" from page to page of handle_enumerate (request_handler.cpp).
use camlispp.Prelude.{
  ℕ, zero, suc, ◌≤◌, ◌<◌, ◌≡◌, refl, sym, ap, ◌∙◌, subst, ◌⊎◌, inl, inr, List, [], ◌∷◌, ◌++◌,
  Option, none, some, map, arith, length, length-drop, take, drop, All, append_assoc, append-nil,
  map-append, take-append-drop, take_all, List-cases, Elem, Option-cases, if◌then◌else◌,
}
use camlispp.StdString.{Bytes, bytes, str_eq}
use camlispp.StdMap.{StdMap, IsSorted, All-assign}
use camlispp.BlobKey.{BlobKey, blobref}
use camlispp.BlobKey.Order.{key_order}
use camlispp.BlobIndex.{
  BlobIndex, Disk, empty_index, done, add_blob, sha1_key, sha256_key, key_for, paginate, page_start,
}
use camlispp.BlobIndex.Pages.{IsPlain, paginate-take, page_start-split}
use camlispp.Qi.{Qi}
use camlispp.Config.{Config}
use camlispp.Hash.{Crypto, sha1_of, sha256_of}
use camlispp.BlobIndex.Invariant.{IsSound, empty_index-IsSound, add_blob-IsSound}
use camlispp.BlobIndex.Lookup.{add_blob_inversion}
use camlispp.Http.Request.{Request}
use camlispp.Http.RequestHandler.Invariant.{serve, serve-keeps}
use camlispp.Http.Grammars.{qi_grammars, is_value_char}
use camlispp.Http.Grammars.Pairs.{IsIn, IsValue}
use camlispp.Http.RequestHandler.{
  Json, Libraries, Fields, end, field, obj, arr, str, enumeration_value, enumeration_json,
  handle_enumerate, json_reply, shown, continue_after,
}
use camlispp.Http.RequestHandler.Enumeration.{
  entry_ref, item_refs, continue_after_last, continue_after_more, shown-take, take-take, All-back,
}
use camlispp.Http.RequestHandler.Forms.{with_qi}
use camlispp.Sync.Asking.{IsAskable}
use camlispp.Sync.Sets.{page_refs}
use camlispp.Sync.Addresses.{enumeration_path, after_of, decode_query_string_after-enumeration_path}
use camlispp.Sync.Getting.{IsStart, page_from, after_of-ref, Elem-IsValue, Elem-middle}

-- What a client reads in the reply: the texts under "blobs", and the one under "continueAfter".
abbrev refs_in : Fields → List Bytes
refs_in end = []
refs_in (field name (arr items) rest) =
    let more = refs_in rest in if str_eq name (bytes "blobs") then item_refs items ++ more else more
refs_in (field name _ rest) = refs_in rest

abbrev next_in : Fields → Option Bytes
next_in end = none
next_in (field name (str ref) rest) =
    let more = next_in rest in if str_eq name (bytes "continueAfter") then some ref else more
next_in (field name _ rest) = next_in rest

abbrev fields_of : Json → Fields
fields_of (obj fields) = fields
fields_of _ = end

-- The JSON that a client reads in the reply to an enumeration from a text on.
abbrev pub page_json : Qi → Bytes → BlobIndex → Json
page_json qi from i = enumeration_value (qi_grammars qi) (enumeration_path from) i

-- The reply of handle_enumerate to each such address is that JSON, written out.
abbrev pub RepliesJson : Qi → Libraries → BlobIndex → Type 0
RepliesJson qi l i =
    (from : Bytes)
    → handle_enumerate (with_qi qi l) (enumeration_path from) i
      ≡ json_reply (with_qi qi l) (page_json qi from i)

-- The texts of the reply to an enumeration from a text on, then those that its "continueAfter" leads
-- to; the first argument is fuel.
pub follow_pages : Qi → ℕ → Bytes → BlobIndex → List Bytes
follow_pages qi zero from i = []
follow_pages qi (suc f) from i =
    let fields = fields_of (page_json qi from i) in
    refs_in fields ++ elim (next_in fields) [ none ↦ [] | some ref ↦ follow_pages qi f ref i ]

refs_in-enumeration_json :
    (i : BlobIndex) (page : List (BlobKey × ℕ))
    → refs_in (fields_of (enumeration_json i page)) ≡ item_refs (shown 0 i page)
unfolding str_eq
refs_in-enumeration_json i page = elim (Option-cases (continue_after page)) [
  | inl h ↦ rw h (append-nil (item_refs (shown 0 i page)))
  | inr (ref, h) ↦ rw h (append-nil (item_refs (shown 0 i page)))
]

next_in-enumeration_json :
    (i : BlobIndex) (page : List (BlobKey × ℕ))
    → next_in (fields_of (enumeration_json i page)) ≡ continue_after page
unfolding str_eq
next_in-enumeration_json i page = elim (Option-cases (continue_after page)) [
  | inl h ↦ rw h refl
  | inr (ref, h) ↦ rw h refl
]

module _ (qi : Qi) (i : BlobIndex) (sorted : IsSorted i.blobs) (plain : All IsPlain i.blobs)
    (askable : IsAskable i.blobs) where
  abbrev go_on : ℕ → Option Bytes → List Bytes
  go_on f o = elim o [ none ↦ [] | some ref ↦ follow_pages qi f ref i ]

  abbrev joined : ℕ → Json → List Bytes
  joined f v = refs_in (fields_of v) ++ go_on f (next_in (fields_of v))

  follow_step :
      (f : ℕ) (from : Bytes) (back : StdMap BlobKey ℕ)
      → IsStart i from
      → page_start (after_of from) i.blobs ≡ back
      → follow_pages qi (suc f) from i
        ≡ map entry_ref (take 25 back) ++ go_on f (continue_after (take 26 back))
  unfolding follow_pages
  follow_step f from back h p =
      let value : (from ≡ []) ⊎ IsValue from = elim h [
        | inl q ↦ inl q
        | inr q ↦ inr (Elem-IsValue from i.blobs askable q)
      ] in
      let page : page_from i from ≡ take 26 back =
        paginate-take (after_of from) 26 i (omega arith) ∙ ap (take 26) p in
      ap (λ (after : Option Bytes). joined f (enumeration_json i (paginate [] after 26 i)))
        (decode_query_string_after-enumeration_path qi from value)
      ∙ ap (λ (pg : List (BlobKey × ℕ)). joined f (enumeration_json i pg)) page
      ∙ ap
          (λ (rs : List Bytes).
            rs ++ go_on f (next_in (fields_of (enumeration_json i (take 26 back)))))
          (refs_in-enumeration_json i (take 26 back)
            ∙ shown-take 25 0 i (take 26 back) refl
            ∙ ap (map entry_ref) (take-take 25 back))
      ∙ ap (λ (o : Option Bytes). map entry_ref (take 25 back) ++ go_on f o)
          (next_in-enumeration_json i (take 26 back))

  follow_last :
      (f : ℕ) (from : Bytes) (back : StdMap BlobKey ℕ)
      → IsStart i from
      → page_start (after_of from) i.blobs ≡ back
      → length back ≤ 25
      → follow_pages qi (suc f) from i ≡ map entry_ref back
  follow_last f from back s h l =
      follow_step f from back s h
      ∙ rw (continue_after_last back l)
          (append-nil (map entry_ref (take 25 back)) ∙ ap (map entry_ref) (take_all 25 back l))

  follow_more :
      (f : ℕ) (from : Bytes) (back : StdMap BlobKey ℕ) (e : BlobKey × ℕ) (ys : StdMap BlobKey ℕ)
      → IsStart i from
      → page_start (after_of from) i.blobs ≡ back
      → drop 25 back ≡ e ∷ ys
      → follow_pages qi f (entry_ref e) i ≡ map entry_ref (e ∷ ys)
      → follow_pages qi (suc f) from i ≡ map entry_ref back
  follow_more f from back e ys s h d rest =
      let whole : take 25 back ++ e ∷ ys ≡ back =
        ap (◌++◌ (take 25 back)) (sym d) ∙ take-append-drop 25 back in
      follow_step f from back s h
      ∙ rw (continue_after_more back e ys d, rest)
          (sym (map-append entry_ref (take 25 back) (e ∷ ys)) ∙ ap (map entry_ref) whole)

  follow_pages_from :
      (f : ℕ) (from : Bytes) (front back : StdMap BlobKey ℕ)
      → i.blobs ≡ front ++ back
      → IsStart i from
      → page_start (after_of from) i.blobs ≡ back
      → length back < f
      → follow_pages qi f from i ≡ map entry_ref back
  follow_pages_from zero from front back e s h l = absurd (omega arith)
  follow_pages_from (suc f) from front back e s h l = elim (List-cases (drop 25 back)) [
    | inl d ↦
        let len : length (drop 25 back) ≡ 0 = ap length d in
        follow_last f from back s h (omega (arith, length-drop 25 back))
    | inr (x, ys, d) ↦
        let len : length (drop 25 back) ≡ suc (length ys) = ap length d in
        let ahead = front ++ take 25 back in
        let split : i.blobs ≡ ahead ++ x ∷ ys =
          e
          ∙ ap (◌++◌ front) (sym (take-append-drop 25 back) ∙ ap (◌++◌ (take 25 back)) d)
          ∙ sym (append_assoc front (take 25 back) (x ∷ ys)) in
        let start : page_start (after_of (entry_ref x)) i.blobs ≡ x ∷ ys =
          ap (λ (o : Option Bytes). page_start o i.blobs) (after_of-ref x)
          ∙ ap (page_start (some (entry_ref x))) split
          ∙ page_start-split ahead x ys (subst (λ (m : StdMap BlobKey ℕ). IsSorted m) split sorted)
              (All-back IsPlain ahead x ys (subst (All IsPlain) split plain)) in
        let listed : IsStart i (entry_ref x) = inr (
          subst (λ (m : StdMap BlobKey ℕ). Elem (entry_ref x) (page_refs m)) (sym split)
            (Elem-middle ahead x ys)) in
        follow_more f from back x ys s h d (
          follow_pages_from f (entry_ref x) ahead (x ∷ ys) split listed start
            (omega (arith, length-drop 25 back)))
  ]

replies_json : (qi : Qi) (l : Libraries) (i : BlobIndex) → RepliesJson qi l i
unfolding handle_enumerate
replies_json qi l i from = refl

-- A client that asks for "/enumerate-blobs", and then for "/enumerate-blobs?after=" with the text
-- under "continueAfter" for as long as there is one, reads in the JSON of the replies of
-- handle_enumerate the text of every key of the index once, in the order of the keys; one reply
-- for each entry and one more are enough. The map must be in order, and the text of every key one
-- that is read back and can stand in an address.
pub follow_pages_complete :
    (qi : Qi) (l : Libraries) (i : BlobIndex) (f : ℕ)
    → IsSorted i.blobs
    → All IsPlain i.blobs
    → IsAskable i.blobs
    → length i.blobs < f
    → RepliesJson qi l i × (follow_pages qi f [] i ≡ map entry_ref i.blobs)
follow_pages_complete qi l i f sorted plain askable less = (
  replies_json qi l i,
  follow_pages_from qi i sorted plain askable f [] [] i.blobs refl (inl refl)
      (unfold page_start in refl) less,
)

-- The digests are written in characters that can stand in an address, as hex digits can.
abbrev pub HasHexDigests : Crypto → Type 0
HasHexDigests crypto =
    (s : Bytes)
    → All (IsIn is_value_char) (crypto.sha1_hex s) × All (IsIn is_value_char) (crypto.sha256_hex s)

-- an index that can be asked for page by page
abbrev IsListed : BlobIndex → Type 0
IsListed i = IsSound i × IsAskable i.blobs

module _ (crypto : Crypto) (config : Config) (hex : HasHexDigests crypto) where
  sha1_key-IsValue : (content : Bytes) → IsValue (blobref (sha1_key crypto config content))
  unfolding blobref key_for sha1_of
  sha1_key-IsValue content = (λ e. cc, (refl, (refl, (refl, (refl, (refl, (hex _).0))))))

  sha256_key-IsValue : (content : Bytes) → IsValue (blobref (sha256_key crypto config content))
  unfolding blobref key_for sha256_of
  sha256_key-IsValue content =
      (λ e. cc, (refl, (refl, (refl, (refl, (refl, (refl, (refl, (hex _).1))))))))

  add_blob-IsListed :
      (content : Bytes) (i j : BlobIndex) (r : Option ℕ)
      → IsListed i
      → add_blob crypto config none content i ≡ done (r, j)
      → IsListed j
  add_blob-IsListed content i j r (s, a) e = (
    add_blob-IsSound crypto config none content i j r s e,
    elim (add_blob_inversion crypto config none content i (r, j) e) [
      | inl (fit, z) ↦ rw (ap (λ (q : Option ℕ × BlobIndex). q.1) z) (
          All-assign (λ x. IsValue (entry_ref x)) _ _ _ (sha256_key-IsValue content)
            (All-assign (λ x. IsValue (entry_ref x)) _ _ _ (sha1_key-IsValue content) a))
      | inr (unfit, z) ↦ rw (ap (λ (q : Option ℕ × BlobIndex). q.1) z) a
    ],
  )

-- Whatever requests come, on an index that was empty at first, they are all answered, and then a
-- client that asks for an enumeration, and goes on with the text under "continueAfter" for as long
-- as there is one, reads in the JSON of the replies of handle_enumerate the text of every key of the
-- index once, in the order of the keys. The digests are written in characters that can stand in an
-- address.
pub follow_pages-serve :
    (qi : Qi) (l : Libraries) (config : Config) (d : Disk) (reqs : List Request)
    → HasHexDigests l.crypto
    → (j : BlobIndex) × (serve (with_qi qi l) config reqs (empty_index d) ≡ done j)
      × RepliesJson qi l j
      × (follow_pages qi (suc (length j.blobs)) [] j ≡ map entry_ref j.blobs)
follow_pages-serve qi l config d reqs hex =
    let (j, e, (s, a)) =
      serve-keeps (with_qi qi l) config IsListed (add_blob-IsListed l.crypto config hex) reqs
        (empty_index d) (empty_index-IsSound d, tt) in
    let (written, complete) =
      follow_pages_complete qi l j (suc (length j.blobs)) s.sorted s.plain a (omega arith) in
    (j, e, written, complete)
