-- ===== src/Http/RequestHandler/Queries.antt =====
-- The handlers that read a query and answer in JSON: handle_enumerate and handle_stat.
use camlispp.Prelude.{
  ℕ, ◌+◌, false, not, ◌&&◌, List, [], ◌∷◌, ◌++◌, Option, none, some, ltb, ◌==◌, if◌then◌else◌,
  length,
}
use camlispp.StdString.{Bytes, bytes, str_eq, find, npos, to_unsigned, substr, starts_with, decimal}
use camlispp.BlobKey.{BlobKey, blobref}
use camlispp.BlobIndex.{BlobIndex, get, paginate}
use camlispp.Http.Request.{Request}
use camlispp.Http.Reply.{Reply, ok, bad_request, stock_reply}
use camlispp.Http.Multipart.{Grammars, Attributes}
use camlispp.Http.RequestHandler.Defs.{
  Json, obj, arr, str, int, bool, Fields, end, field, Items, nil, cons, Libraries, header, blob_at,
}

-- the part of a text behind its first question mark, as decode_query_string_blobs takes it
unfoldable pub query_part : Bytes → Bytes
unfolding find
query_part input =
    let found = to_unsigned (find input (b'?' ∷ [])) in
    if not (found == npos) then substr input (to_unsigned (found + 1)) else input

-- the loop over the map: the values of the keys that start with "blob"
unfoldable pub blob_values : Attributes → List Bytes
unfolding starts_with
blob_values [] = []
blob_values ((k, v) ∷ m) =
    let rest = blob_values m in if starts_with k (bytes "blob") then v ∷ rest else rest

unfoldable pub decode_query_string_blobs : Grammars → Bytes → List Bytes
unfolding query_part blob_values
decode_query_string_blobs g input = elim (g.keys_and_values (query_part input)) [
  | none ↦ []
  | some m ↦ blob_values m
]

-- the loop that looks for a key that starts with "after"
unfoldable pub after_value : Attributes → Option Bytes
unfolding starts_with
after_value [] = none
after_value ((k, v) ∷ m) = if starts_with k (bytes "after") then some v else after_value m

unfoldable pub decode_query_string_after : Grammars → Bytes → Option Bytes
unfolding find after_value
decode_query_string_after g request_path =
    let found = to_unsigned (find request_path (b'?' ∷ [])) in
    if not (found == npos)
    then elim (g.keys_and_values (substr request_path (to_unsigned (found + 1)))) [
      | none ↦ none
      | some m ↦ after_value m
    ]
    else none

abbrev pub size_at : BlobIndex → ℕ → ℕ
size_at i p = elim (blob_at i (some p)) [ none ↦ 0 | some b ↦ b.size ]

abbrev pub blob_json : Bytes → ℕ → Json
blob_json ref size = obj (field (bytes "blobRef") (str ref) (field (bytes "size") (int size) end))

-- handle_enumerate: the loop that shows the first 25 of the blobs; `count` counts all of them
unfoldable pub shown : ℕ → BlobIndex → List (BlobKey × ℕ) → Items
unfolding blobref
shown count i [] = nil
shown count i ((k, p) ∷ rest) =
    let more = shown (count + 1) i rest in
    if ltb count 25 then cons (blob_json (blobref k) (size_at i p)) more else more

-- `blobs.back()`, with a text for the empty list, where it is not called
unfoldable pub back_ref : List (BlobKey × ℕ) → Bytes
unfolding blobref
back_ref [] = []
back_ref ((k, p) ∷ []) = blobref k
back_ref (e ∷ f ∷ rest) = back_ref (f ∷ rest)

unfoldable pub continue_after : List (BlobKey × ℕ) → Option Bytes
unfolding back_ref
continue_after blobs = if ltb 25 (length blobs) then some (back_ref blobs) else none

abbrev pub continue_field : Option Bytes → Fields → Fields
continue_field none rest = rest
continue_field (some ref) rest = field (bytes "continueAfter") (str ref) rest

abbrev pub enumeration_json : BlobIndex → List (BlobKey × ℕ) → Json
enumeration_json i blobs = obj (
    field (bytes "blobs") (arr (shown 0 i blobs)) (
      continue_field (continue_after blobs)
        (field (bytes "canLongPoll") (str (bytes "false")) end)))

abbrev pub json_reply : Libraries → Json → Reply
json_reply l value =
    let content = l.write_json value ++ (b'\r' ∷ b'\n' ∷ []) in
    record {
      status = ok;
      headers =
          header (bytes "Content-Length") (decimal (length content))
          ∷ header (bytes "Content-Type") (bytes "application/json")
          ∷ [];
      content = content;
    }

-- the JSON of handle_enumerate: up to 26 entries are asked for
abbrev pub enumeration_value : Grammars → Bytes → BlobIndex → Json
enumeration_value g request_path i =
    enumeration_json i (paginate [] (decode_query_string_after g request_path) 26 i)

unfoldable pub handle_enumerate : Libraries → Bytes → BlobIndex → Reply
unfolding shown continue_after paginate decode_query_string_after
handle_enumerate l request_path i = json_reply l (enumeration_value l.grammars request_path i)

-- handle_stat: the loop over the texts, which shows those that lead to a blob
unfoldable pub stat_items : BlobIndex → List Bytes → Items
unfolding get
stat_items i [] = nil
stat_items i (ref ∷ refs) = elim (get ref i) [
  | none ↦ stat_items i refs
  | some p ↦ cons (blob_json ref (size_at i p)) (stat_items i refs)
]

abbrev pub stat_json : BlobIndex → List Bytes → Json
stat_json i refs = obj (
    field (bytes "stat") (arr (stat_items i refs)) (
      field (bytes "maxUploadSize") (int 1048576) (
        field (bytes "uploadUrl") (str (bytes "/upload")) (
          field (bytes "uploadUrlExpirationSeconds") (int 7200)
            (field (bytes "canLongPoll") (bool false) end)))))

-- the texts that a request asks about
unfoldable pub stat_refs : Libraries → Bytes → Request → List Bytes
unfolding str_eq decode_query_string_blobs
stat_refs l request_path req =
    if str_eq req.method (bytes "GET")
    then decode_query_string_blobs l.grammars request_path
    else if str_eq req.method (bytes "POST")
    then decode_query_string_blobs l.grammars req.content
    else []

unfoldable pub handle_stat : Libraries → Bytes → Request → BlobIndex → Reply
unfolding str_eq find stat_refs stat_items stock_reply
handle_stat l request_path req i =
    let found_camli_version = to_unsigned (find request_path (bytes "camliversion=1")) in
    if str_eq req.method (bytes "GET") && found_camli_version == npos
    then stock_reply bad_request
    else json_reply l (stat_json i (stat_refs l request_path req))
