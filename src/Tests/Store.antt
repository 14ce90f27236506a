-- ===== src/Tests/Store.antt =====
-- Tests of the store: a GET, two uploads, and the GET again.
use camlispp.Prelude.{
  ℕ, ◌≡◌, ◌≢◌, refl, inl, ap, Option, some, get_elem?, arith, List, [], ◌∷◌, All,
}
use camlispp.StdString.{Bytes, bytes, c_str, ends_with, starts_with}
use camlispp.BlobKey.{BlobKey, blobref, cmpr_blob_key}
use camlispp.Hash.{sha256_of}
use camlispp.BlobIndex.{done, path_of, key_for}
use camlispp.BlobIndex.Store.{HasRoom, NoClashes}
use camlispp.Http.Request.{Request, cleared}
use camlispp.Http.Reply.{not_found, stock_reply}
use camlispp.Http.UrlDecode.{url_decode}
use camlispp.Http.Grammars.Forms.{FormPart, IsPart, write_form}
use camlispp.Http.RequestHandler.{accepted_format, get_header}
use camlispp.Http.RequestHandler.Stored.{plain_reply}
use camlispp.Http.RequestHandler.Forms.{empty_ok}
use camlispp.Http.RequestHandler.Store.{IsFetch}
use camlispp.Http.RequestHandler.Store.Replies.{
  Op, upload, fetch, Does, all_contents, server_replies, server_replies-store_replies,
}
use camlispp.Tests.{test_crypto, test_libraries, test_config, test_disk, test_index}
use camlispp.Tests.Qi.{test_qi}
use camlispp.Tests.Forms.{
  boundry, hello, blank, hello-IsPart, blank-IsPart, upload_of, upload_of-IsUpload,
}

abbrev world : FormPart
world = record { lines = []; content = bytes "world" }

world-IsPart : IsPart boundry world
unfolding starts_with
world-IsPart = ground arith

abbrev pub hello_key : BlobKey
hello_key = record { hash_type = bytes "sha1"; hash_value = bytes "hello" }

abbrev pub fetch_hello : Request
fetch_hello = record cleared { method = bytes "GET"; uri = bytes "/sha1-hello" }

pub fetch_hello-IsFetch : IsFetch hello_key fetch_hello
unfolding url_decode blobref accepted_format get_header
fetch_hello-IsFetch = record {
  typed = inl refl;
  no_dot = ground arith;
  method_fits = refl;
  decoded = refl;
  plain = refl;
}

abbrev first_form : Request
first_form = upload_of (write_form boundry (hello ∷ blank ∷ []))

abbrev second_form : Request
second_form = upload_of (write_form boundry (world ∷ []))

abbrev ops : List (Op × Request)
ops =
    (fetch hello_key, fetch_hello)
    ∷ (upload boundry hello (blank ∷ []), first_form)
    ∷ (upload boundry world [], second_form)
    ∷ (fetch hello_key, fetch_hello)
    ∷ []

ops-Does : All (λ o. Does o.0 o.1) ops
ops-Does = (
  fetch_hello-IsFetch,
  (
    (upload_of-IsUpload _, refl, (hello-IsPart, (blank-IsPart, tt))),
    ((upload_of-IsUpload _, refl, (world-IsPart, tt)), (fetch_hello-IsFetch, tt)),
  ),
)

apart : ◌≢◌ {A = Option ℕ} (some 104) (some 119)
apart h = ground arith

hello-ne-world :
    path_of test_crypto test_config (bytes "hello")
    ≢ path_of test_crypto test_config (bytes "world")
unfolding sha256_of c_str ends_with
hello-ne-world e = apart (ap (λ (p : Bytes). get_elem? p 5) e)

ops-NoClashes : NoClashes test_crypto test_config (all_contents ops)
ops-NoClashes = ((λ e. absurd (hello-ne-world e), tt), (tt, tt))

ops-HasRoom : All (HasRoom test_crypto test_config test_disk) (all_contents ops)
unfolding sha256_of c_str ends_with
ops-HasRoom = ((ground arith, inl (refl, refl)), ((ground arith, inl (refl, refl)), tt))

server_replies-store_replies_example :
    server_replies test_qi test_libraries test_config ops test_index
    ≡ done (stock_reply not_found ∷ empty_ok ∷ empty_ok ∷ plain_reply (bytes "hello") ∷ [])
unfolding cmpr_blob_key key_for c_str
server_replies-store_replies_example =
    server_replies-store_replies test_qi test_libraries test_config test_disk ops ops-Does
      ops-NoClashes ops-HasRoom
