-- ===== src/Http/RequestHandler/Dispatch.antt =====
-- handle_put, and handle_request, which chooses the handler.
use camlispp.Prelude.{
  ℕ, Bool, true, not, ◌&&◌, ◌||◌, List, [], ◌∷◌, Option, none, some, ◌==◌, if◌then◌else◌,
}
use camlispp.StdString.{Bytes, bytes, str_eq, find, npos, starts_with}
use camlispp.Config.{Config}
use camlispp.BlobIndex.{Outcome, aborted, done, BlobIndex, add_blob}
use camlispp.Http.Request.{Request}
use camlispp.Http.Reply.{Reply, ok, bad_request, stock_reply}
use camlispp.Http.UrlDecode.{url_decode}
use camlispp.Http.Multipart.{Grammars, FormHeader, attribute_value, Part, form_parts}
use camlispp.Http.RequestHandler.Defs.{
  Libraries, get_header, handle_static, handle_check, handle_get,
}
use camlispp.Http.RequestHandler.Queries.{handle_enumerate, handle_stat}

-- parse_boundry_header: a text that does not parse gives no attributes
unfoldable pub parse_boundry_header : Grammars → Bytes → FormHeader
parse_boundry_header g header_value = record {
  name = bytes "Content-Type";
  attributes = elim (g.header_tokens header_value) [ none ↦ [] | some m ↦ m ];
}

abbrev pub index_of : Outcome (Option ℕ × BlobIndex) → Outcome BlobIndex
index_of aborted = aborted
index_of (done (r, j)) = done j

abbrev pub answer : Reply → BlobIndex → Outcome (Reply × BlobIndex)
answer rep i = done (rep, i)

abbrev pub put_answer : Outcome BlobIndex → Outcome (Reply × BlobIndex)
put_answer aborted = aborted
put_answer (done i) = done (record { status = ok; headers = []; content = [] }, i)

-- the tests on the decoded path
unfoldable pub path_is_bad : Bytes → Bool
unfolding find
path_is_bad [] = true
path_is_bad (c ∷ cs) = not (c == b'/') || not (find (c ∷ cs) (bytes "..") == npos)

module _ (l : Libraries) (config : Config) where
  -- one round of the loop over the parts: a payload that is not empty is added
  unfoldable pub add_payload : Bytes → BlobIndex → Outcome BlobIndex
  unfolding add_blob
  add_payload [] i = done i
  add_payload (c ∷ cs) i = index_of (add_blob l.crypto config none (c ∷ cs) i)

  unfoldable pub add_parts : List Part → BlobIndex → Outcome BlobIndex
  unfolding add_payload
  add_parts [] i = done i
  add_parts (part ∷ parts) i = elim (add_payload part.payload i) [
    | aborted ↦ aborted
    | done j ↦ add_parts parts j
  ]

  -- the parts of the posted form, none if the content type names no boundary
  unfoldable pub posted_parts : Bytes → Bytes → List Part
  unfolding parse_boundry_header attribute_value form_parts
  posted_parts content_type content =
      elim (attribute_value (bytes "boundary") (parse_boundry_header l.grammars content_type)) [
        | none ↦ []
        | some boundary ↦ form_parts l.grammars boundary content
      ]

  unfoldable pub handle_put : Request → BlobIndex → Outcome (Reply × BlobIndex)
  unfolding get_header str_eq add_parts posted_parts stock_reply
  handle_put req i =
      let content_type = get_header req.headers (bytes "Content-Type") in
      if str_eq content_type []
      then answer (stock_reply bad_request) i
      else put_answer (add_parts (posted_parts content_type req.content) i)

  -- the choice of the handler, behind the tests on the path
  unfoldable pub dispatch : Bytes → Request → BlobIndex → Outcome (Reply × BlobIndex)
  unfolding starts_with str_eq handle_static handle_stat handle_enumerate handle_check handle_get
      handle_put stock_reply
  dispatch request_path req i =
      if starts_with request_path (bytes "/static/")
      then answer (handle_static config request_path i) i
      else if starts_with request_path (bytes "/stat")
      then answer (handle_stat l request_path req i) i
      else if starts_with request_path (bytes "/enumerate-blobs") && str_eq req.method (bytes "GET")
      then answer (handle_enumerate l request_path i) i
      else if str_eq req.method (bytes "HEAD")
      then answer (handle_check request_path i) i
      else if str_eq req.method (bytes "GET")
      then answer (handle_get l request_path req i) i
      else if str_eq req.method (bytes "PUT") || str_eq req.method (bytes "POST")
      then handle_put req i
      else answer (stock_reply bad_request) i

  unfoldable pub handle_request : Request → BlobIndex → Outcome (Reply × BlobIndex)
  unfolding url_decode path_is_bad dispatch
  handle_request req i = elim (url_decode req.uri) [
    | none ↦ answer (stock_reply bad_request) i
    | some request_path ↦
        if path_is_bad request_path
        then answer (stock_reply bad_request) i
        else dispatch request_path req i
  ]
