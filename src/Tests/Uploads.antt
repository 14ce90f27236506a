-- ===== src/Tests/Uploads.antt =====
-- Tests of an upload, and of the invariant.
use camlispp.Prelude.{◌≡◌, refl, inl, arith, [], ◌∷◌}
use camlispp.StdString.{bytes}
use camlispp.BlobIndex.{done, BlobIndex, accepted}
use camlispp.BlobIndex.Invariant.{IsSound, empty_index-IsSound}
use camlispp.Http.Request.{Request, cleared}
use camlispp.Http.Reply.{Reply, ok}
use camlispp.Http.UrlDecode.{url_decode}
use camlispp.Http.RequestHandler.{handle_request, header, posted_parts, get_header}
use camlispp.Http.RequestHandler.Invariant.{handle_request-IsSound}
use camlispp.Http.RequestHandler.Upload.{Uploaded, handle_request-Uploaded}
use camlispp.Tests.{test_crypto, test_libraries, test_config, test_disk, test_index}

abbrev pub upload : Request
upload = record cleared {
  method = bytes "PUT";
  uri = bytes "/upload";
  headers = header (bytes "content-type") (bytes "multipart/form-data; boundary=x") ∷ [];
  content = bytes "hello";
}

abbrev empty_reply : Reply
empty_reply = record { status = ok; headers = []; content = [] }

abbrev uploaded : BlobIndex
uploaded = accepted test_crypto test_config (bytes "hello") test_index

upload_run :
    handle_request test_libraries test_config upload test_index ≡ done (empty_reply, uploaded)
unfolding handle_request
upload_run = refl

handle_request-IsSound_example : IsSound uploaded
handle_request-IsSound_example =
    handle_request-IsSound test_libraries test_config upload test_index uploaded empty_reply
      (empty_index-IsSound test_disk) upload_run

handle_request-Uploaded_example :
    (j : BlobIndex) × (handle_request test_libraries test_config upload test_index
      ≡ done (empty_reply, j))
    × Uploaded test_libraries test_config
        (posted_parts test_libraries test_config
          (get_header upload.headers (bytes "Content-Type"))
          upload.content)
        test_index
        j
handle_request-Uploaded_example =
    handle_request-Uploaded test_libraries test_config upload test_index tt (inl refl)
      (unfold url_decode in refl) (unfold get_header in ground arith)
