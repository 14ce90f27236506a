-- ===== src/Tests/Forms.antt =====
-- Tests of the grammars: a form that is written out, posted, and read back.
use camlispp.Prelude.{◌≡◌, refl, inr, [], ◌∷◌, ◌++◌, some, arith, All}
use camlispp.StdString.{Bytes, bytes, starts_with, str_lt}
use camlispp.BlobIndex.{done, BlobIndex}
use camlispp.Http.Request.{Request, cleared}
use camlispp.Http.Multipart.{form_parts}
use camlispp.Http.UrlDecode.{url_decode}
use camlispp.Http.RequestHandler.{handle_request, header, get_header}
use camlispp.BlobIndex.Known.{IsKnown}
use camlispp.Http.RequestHandler.Forms.{
  with_qi, IsUpload, IsHeld, empty_ok, handle_request-write_form, handle_request-not_ascii,
  handle_request_no_space,
}
use camlispp.Http.Grammars.{qi_grammars, parse_header_tokens, parse_query, add_pair}
use camlispp.Http.Grammars.Pairs.{write_query, parse_query-write_query}
use camlispp.Http.Grammars.Attributes.{form_type, parse_header_tokens-form_type}
use camlispp.Http.Grammars.Chunks.{write_pieces, IsFree}
use camlispp.Http.Grammars.Forms.{FormPart, IsPart, write_form, payloads, form_parts-write_form}
use camlispp.Tests.{test_libraries, test_config, test_index}
use camlispp.Tests.Qi.{test_qi}

abbrev pub boundry : Bytes
boundry = bytes "xy"

abbrev pub hello : FormPart
hello = record { lines = bytes "Content-Type: a/b" ∷ []; content = bytes "hello" }

-- a part with no header lines and no content
abbrev pub blank : FormPart
blank = record { lines = []; content = [] }

pub hello-IsPart : IsPart boundry hello
unfolding starts_with
hello-IsPart = ground arith

pub blank-IsPart : IsPart boundry blank
unfolding starts_with
blank-IsPart = ground arith

parse_header_tokens-form_type_example :
    parse_header_tokens test_qi (form_type boundry)
    ≡ some ((bytes "boundary", boundry) ∷ (bytes "multipart/form-data", []) ∷ [])
parse_header_tokens-form_type_example = parse_header_tokens-form_type test_qi boundry (ground arith)

form_parts-write_form_example :
    payloads (form_parts (qi_grammars test_qi) boundry (write_form boundry (hello ∷ blank ∷ [])))
    ≡ bytes "hello" ∷ [] ∷ []
form_parts-write_form_example =
    form_parts-write_form test_qi boundry hello (blank ∷ []) (hello-IsPart, (blank-IsPart, tt))

abbrev pub upload_of : Bytes → Request
upload_of content = record cleared {
  method = bytes "POST";
  uri = bytes "/upload";
  headers = header (bytes "content-type") (form_type boundry) ∷ [];
  content = content;
}

pub upload_of-IsUpload : (content : Bytes) → IsUpload boundry (upload_of content)
unfolding url_decode get_header
upload_of-IsUpload content = record {
  method_fits = inr refl;
  decoded = refl;
  typed = refl;
  boundary = ground arith;
}

handle_request-write_form_example :
    (j : BlobIndex) × (handle_request
        (with_qi test_qi test_libraries)
        test_config
        (upload_of (write_form boundry (hello ∷ blank ∷ [])))
        test_index
      ≡ done (empty_ok, j))
    × All (IsHeld test_qi test_libraries test_config boundry j) (bytes "hello" ∷ [] ∷ [])
    × ((hash : Bytes) → IsKnown test_index hash → IsKnown j hash)
handle_request-write_form_example =
    handle_request-write_form test_qi test_libraries test_config boundry hello (blank ∷ [])
      (upload_of (write_form boundry (hello ∷ blank ∷ []))) test_index tt (upload_of-IsUpload _)
      refl (hello-IsPart, (blank-IsPart, tt))

-- the piece of a part with the content "h", a byte 233, and "llo"
abbrev front : Bytes
front = bytes "\r\nh"

accent-IsFree : IsFree boundry (front ++ 233 ∷ bytes "llo\r\n")
unfolding starts_with
accent-IsFree = ground arith

handle_request-not_ascii_example :
    handle_request
      (with_qi test_qi test_libraries)
      test_config
      (upload_of (write_pieces boundry ((front ++ 233 ∷ bytes "llo\r\n") ∷ [])))
      test_index
    ≡ done (empty_ok, test_index)
handle_request-not_ascii_example =
    handle_request-not_ascii test_qi test_libraries test_config boundry front 233 (bytes "llo\r\n")
      [] (upload_of (write_pieces boundry ((front ++ 233 ∷ bytes "llo\r\n") ∷ []))) test_index
      (upload_of-IsUpload _) refl (ground arith) (ground arith) accent-IsFree

-- the same form, with no space in front of the boundary
abbrev no_space : Request
no_space = record (upload_of (write_form boundry (hello ∷ blank ∷ []))) {
  headers =
      header (bytes "content-type") (bytes "multipart/form-data;" ++ bytes "boundary=xy") ∷ [];
}

no_space-type :
    get_header no_space.headers (bytes "Content-Type")
    ≡ bytes "multipart/form-data;" ++ bytes "boundary=xy"
unfolding get_header
no_space-type = refl

handle_request_no_space_example :
    handle_request (with_qi test_qi test_libraries) test_config no_space test_index
    ≡ done (empty_ok, test_index)
unfolding url_decode starts_with
handle_request_no_space_example =
    handle_request_no_space test_qi test_libraries test_config (bytes "boundary=xy") no_space
      test_index (inr refl) refl no_space-type refl

-- two pairs of one key: the first is kept
parse_query-write_query_example :
    parse_query test_qi (
      write_query
        (bytes "blob1", bytes "sha1-a")
        ((bytes "camliversion", bytes "1") ∷ (bytes "blob1", bytes "b") ∷ []))
    ≡ some ((bytes "blob1", bytes "sha1-a") ∷ (bytes "camliversion", bytes "1") ∷ [])
unfolding add_pair str_lt
parse_query-write_query_example =
    parse_query-write_query test_qi (bytes "blob1", bytes "sha1-a")
      ((bytes "camliversion", bytes "1") ∷ (bytes "blob1", bytes "b") ∷ []) (ground arith)
