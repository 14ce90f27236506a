-- ===== src/Tests/Handlers.antt =====
-- Tests of the handlers.
use camlispp.Prelude.{◌≡◌, ◌≢◌, refl, inl, none, arith, length, All}
use camlispp.StdString.{bytes, c_str, ends_with}
use camlispp.BlobKey.{key_lt, blobref}
use camlispp.Hash.{sha1_of, sha256_of}
use camlispp.BlobIndex.{done, BlobIndex, accepted, add_blob_eq, sha1_key, key_for, path_of}
use camlispp.Http.Request.{Request, cleared}
use camlispp.Http.RequestParser.{atoi}
use camlispp.Http.Reply.{Reply}
use camlispp.Http.UrlDecode.{url_decode}
use camlispp.Http.RequestHandler.{
  handle_request, handle_stat, json_reply, stat_json, stat_refs, get_header, blob_reply,
  accepted_format,
}
use camlispp.Http.RequestHandler.Routes.{
  Returns, handle_request-Returns, handle_request_read_only, handle_stat_answers,
}
use camlispp.Http.RequestHandler.ContentLength.{HasLength, handle_request-HasLength}
use camlispp.Http.RequestHandler.Stored.{plain_reply, handle_request-add_blob}
use camlispp.Tests.{test_crypto, test_libraries, test_config, test_index}

abbrev get_request : Request
get_request = record cleared { method = bytes "GET"; uri = bytes "/sha1-hello" }

abbrev hello_index : BlobIndex
hello_index = accepted test_crypto test_config (bytes "hello") test_index

abbrev hello_reply : Reply
hello_reply = blob_reply test_libraries none (bytes "hello")

handle_request-Returns_example :
    Returns (handle_request test_libraries test_config get_request hello_index)
handle_request-Returns_example =
    handle_request-Returns test_libraries test_config get_request hello_index

get_request_run :
    handle_request test_libraries test_config get_request hello_index
    ≡ done (hello_reply, hello_index)
unfolding handle_request key_lt
get_request_run = refl

handle_request_read_only_example : hello_index ≡ hello_index
handle_request_read_only_example =
    handle_request_read_only test_libraries test_config get_request hello_index hello_index
      hello_reply (ground arith) (ground arith) get_request_run

handle_request-HasLength_example :
    HasLength hello_reply
    × (atoi (get_header hello_reply.headers (bytes "Content-Length")) ≡ length hello_reply.content)
handle_request-HasLength_example =
    handle_request-HasLength test_libraries test_config get_request hello_index hello_index
      hello_reply refl get_request_run (unfold blob_reply in ground arith)

hello_path_whole : All (λ x. x ≢ 0) (path_of test_crypto test_config (bytes "hello"))
unfolding sha256_of c_str ends_with
hello_path_whole = ground arith

handle_request-add_blob_example :
    handle_request test_libraries test_config get_request hello_index
    ≡ done (plain_reply (bytes "hello"), hello_index)
handle_request-add_blob_example =
    handle_request-add_blob test_libraries test_config (bytes "hello") test_index hello_index none 0
      (sha1_key test_crypto test_config (bytes "hello")) get_request tt
      (add_blob_eq test_crypto test_config none b'h' (bytes "ello") test_index) hello_path_whole
      refl refl (inl refl) (unfold key_for sha1_of c_str in ground arith) refl
      (unfold url_decode blobref key_for sha1_of c_str in refl)
      (unfold accepted_format get_header in refl)

handle_stat_answers_example :
    handle_stat test_libraries (bytes "/stat?blob1=x") get_request test_index
    ≡ json_reply test_libraries
        (stat_json test_index (stat_refs test_libraries (bytes "/stat?blob1=x") get_request))
handle_stat_answers_example =
    handle_stat_answers test_libraries (bytes "/stat?blob1=x") get_request test_index
