-- ===== src/Tests/Parser.antt =====
-- Tests of the parser, of a connection, and of percent encoding.
use camlispp.Prelude.{◌≤◌, ◌≡◌, refl, inl, false, List, [], ◌∷◌, ◌++◌, some, arith, length, map}
use camlispp.StdString.{IsBytes, Bytes, bytes, to_lower}
use camlispp.Http.Request.{Request, cleared}
use camlispp.Http.RequestParser.{
  RequestParser, initial, parse, consume, is_true, is_token, content_length,
}
use camlispp.Http.RequestParser.Bounds.{IsComplete, parse-IsComplete}
use camlispp.Http.RequestParser.WellFormed.{IsWellFormed, parse-IsWellFormed}
use camlispp.Http.RequestParser.Chunks.{resume, parse-append}
use camlispp.Http.RequestParser.RoundTrip.{write_request, parse-write_request}
use camlispp.Http.UrlDecode.{url_decode}
use camlispp.Http.UrlDecode.Types.{url_decode-IsBytes}
use camlispp.Http.UrlDecode.RoundTrip.{percent_encode, url_decode-percent_encode}
use camlispp.Http.Connection.{run_connection, start, read, after_parse}
use camlispp.Http.Connection.Chunks.{joined, run_connection-reads}
use camlispp.Tests.{test_libraries, test_config, test_index}

abbrev post : Request
post = record {
  method = bytes "POST";
  uri = bytes "/x";
  http_version_major = 1;
  http_version_minor = 1;
  headers = record { name = bytes "content-length"; value = bytes "2" } ∷ [];
  content = bytes "hi";
}

post-IsWellFormed : IsWellFormed post
unfolding is_token to_lower
post-IsWellFormed = record {
  method_tokens = (refl, (refl, (refl, (refl, tt))));
  uri_chars = ground arith;
  header_lines = ground arith;
}

post-IsComplete : IsComplete post
unfolding content_length
post-IsComplete = inl (ground arith, refl, ground arith)

parse-write_request_example :
    (p : RequestParser) × (parse (initial 7) cleared (write_request post (bytes "rest"))
      ≡ record { result = is_true; parser = p; request = post; rest = bytes "rest" })
parse-write_request_example =
    parse-write_request 7 post (bytes "rest") post-IsWellFormed (ground arith) (ground arith)
      (ground arith) post-IsComplete

abbrev pieces : List Bytes
pieces = (bytes "GET /st" ++ []) ∷ bytes "at HTTP/1.1" ∷ (b'\r' ∷ []) ∷ []

run_connection-reads_example :
    run_connection test_libraries test_config (map read pieces) (start 7) test_index ≡ (
      let d = parse (initial 7) cleared (joined pieces) in
      after_parse test_libraries test_config d.result d (start 7) test_index)
run_connection-reads_example = run_connection-reads test_libraries test_config 7 pieces test_index

parse-append_example :
    parse (initial 7) cleared (bytes "GET /st" ++ bytes "at HTTP/1.1")
    ≡ resume (parse (initial 7) cleared (bytes "GET /st")) (bytes "at HTTP/1.1")
parse-append_example = parse-append (initial 7) cleared (bytes "GET /st") (bytes "at HTTP/1.1")

short_request : (parse (initial 7) cleared (write_request post [])).result ≡ is_true
unfolding parse consume content_length
short_request = refl

parse-IsComplete_example : IsComplete (parse (initial 7) cleared (write_request post [])).request
parse-IsComplete_example = parse-IsComplete 7 cleared (write_request post []) refl short_request

parse-IsWellFormed_example : IsWellFormed (parse (initial 7) post (bytes "GET /stat")).request
parse-IsWellFormed_example =
    parse-IsWellFormed (initial 7) post (bytes "GET /stat") post-IsWellFormed

url_decode-percent_encode_example :
    url_decode (percent_encode (λ c. false) (bytes "a b+c")) ≡ some (bytes "a b+c")
url_decode-percent_encode_example =
    url_decode-percent_encode (λ c. false) (bytes "a b+c") (ground arith)

url_decode-IsBytes_example : IsBytes (bytes "a b") × (length (bytes "a b") ≤ length (bytes "a%20b"))
url_decode-IsBytes_example =
    url_decode-IsBytes (bytes "a%20b") (bytes "a b") (ground arith) (unfold url_decode in refl)
