-- ===== src/Tests/Exchange.antt =====
-- A test of a page that is sent to a server of this program: it knows none of two texts. The network
-- writes down its calls.
use camlispp.Prelude.{
  ℕ, ◌≡◌, refl, ap, ◌↔◌, true, List, [], ◌∷◌, Option, none, some, Elem, arith, map, All, inl, inr,
}
use camlispp.StdString.{Bytes, bytes}
use camlispp.BlobKey.{BlobKey, blobref, key_lt}
use camlispp.BlobKey.Order.{key_order}
use camlispp.BlobIndex.{Outcome, aborted, done, BlobIndex, get}
use camlispp.Http.Request.{Request, cleared}
use camlispp.Http.Reply.{Reply}
use camlispp.Http.UrlDecode.{url_decode}
use camlispp.Http.Grammars.{qi_grammars}
use camlispp.Http.RequestHandler.{Json, handle_request, stat_json, decode_query_string_blobs}
use camlispp.Http.RequestHandler.Forms.{with_qi}
use camlispp.Sync.{Call, post, State, send_page, stat_request, build_stat_url}
use camlispp.Sync.Sets.{page_refs, IsOrdered}
use camlispp.Sync.Uploading.{HasFile, file_name, uploaded}
use camlispp.BlobIndex.Invariant.{IsSound}
use camlispp.Blob.{Blob, new_blob}
use camlispp.Sync.Asking.{IsAskable}
use camlispp.Sync.Exchange.{IsQuestion, send_page-exchange}
use camlispp.Tests.{test_crypto, test_libraries, test_config, test_index}
use camlispp.Tests.Qi.{test_qi}

abbrev page : List (BlobKey × ℕ)
page =
    (record { hash_type = bytes "sha1"; hash_value = bytes "0a" }, 0)
    ∷ (record { hash_type = bytes "sha256"; hash_value = bytes "1b" }, 1)
    ∷ []

page-IsAskable : IsAskable page
unfolding blobref
page-IsAskable = ground arith

abbrev question : Request
question = record cleared {
  method = bytes "POST";
  uri = bytes "/stat";
  content = stat_request page;
}

question-IsQuestion : IsQuestion page question
unfolding url_decode
question-IsQuestion = record { method_fits = refl; decoded = refl; written = refl }

abbrev content_of : Outcome (Reply × BlobIndex) → Bytes
content_of aborted = []
content_of (done (rep, i)) = rep.content

-- the network, whose other end is a server with an empty index
abbrev network : Call → List Call → Option Bytes × List Call
network c w = (
  some (
      content_of (handle_request (with_qi test_qi test_libraries) test_config question test_index)),
  c ∷ w,
)

abbrev read_stat : Bytes → Option Json
read_stat s =
    some
      (stat_json test_index (decode_query_string_blobs (qi_grammars test_qi) (stat_request page)))

abbrev blob : Bytes → Blob
blob path = record (new_blob path) { size = 5 }

abbrev local : BlobIndex
local = record test_index {
  heap = blob (bytes "/var/0a") ∷ blob (bytes "/var/1b") ∷ [];
  blobs = page;
}

local-IsSound : IsSound local
unfolding key_lt
local-IsSound = record { sorted = ground arith; plain = ground arith; live = ground arith }

abbrev here : State (List Call)
here = record { index = local; world = [] }

abbrev host : Bytes
host = bytes "http://127.0.0.1:8082"

abbrev asked : List Call
asked = post (build_stat_url host) (stat_request page) ∷ []

send_page-exchange_example :
    (files : List (Bytes × Bytes)) × (send_page test_crypto test_config read_stat network host page
        here
      ≡ done (true, record here { world = uploaded network host files asked }))
    × ((x : Bytes)
        → Elem x (map file_name files) ↔ (Elem x (page_refs page) × (get x test_index ≡ none)))
    × IsOrdered (map file_name files)
    × All (HasFile local) files
send_page-exchange_example =
    send_page-exchange test_crypto test_config read_stat network host test_qi test_libraries
      test_config test_index question
      (record { hash_type = bytes "sha1"; hash_value = bytes "0a" }, 0)
      ((record { hash_type = bytes "sha256"; hash_value = bytes "1b" }, 1) ∷ []) here asked
      local-IsSound (inl refl, (inr (inl refl), tt)) page-IsAskable question-IsQuestion
      (λ rep after e. ap (λ (o : Outcome (Reply × BlobIndex)). (some (content_of o), asked)) e) refl
