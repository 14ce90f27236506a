-- ===== src/Tests/Getting.antt =====
-- A test of the loop that gets, against a server that has one blob.
use camlispp.Prelude.{
  ℕ, ◌≡◌, refl, sym, ap, inl, inr, true, List, [], ◌∷◌, ◌++◌, Option, none, some, arith,
  if◌then◌else◌,
}
use camlispp.StdString.{Bytes, bytes, str_eq, ends_with, c_str}
use camlispp.BlobKey.{BlobKey, blobref, key_lt}
use camlispp.BlobKey.Order.{key_order}
use camlispp.BlobIndex.{done, BlobIndex, key_for, paginate}
use camlispp.Hash.{sha1_of}
use camlispp.Http.RequestHandler.{Json, handle_enumerate, enumeration_json}
use camlispp.Sync.{
  Call, fetch, post, upload, State, get_loop, build_enumeration_url, build_blob_url,
}
use camlispp.Sync.Fetching.{IsServed, IsContentOf, Fetched}
use camlispp.Sync.Getting.{IsStart, page_from, listing, get_loop-Fetched}
use camlispp.Tests.{test_crypto, test_libraries, test_config, test_index}
use camlispp.Tests.Qi.{test_qi}

abbrev key : BlobKey
key = record { hash_type = bytes "sha1"; hash_value = bytes "hello" }

abbrev remote : BlobIndex
remote = record test_index { blobs = (key, 0) ∷ [] }

abbrev host : Bytes
host = bytes "http://127.0.0.1:8082"

abbrev listed : Json
listed = enumeration_json remote ((key, 0) ∷ [])

abbrev read_listed : Bytes → Option Json
read_listed s = some listed

abbrev network : Call → ℕ → Option Bytes × ℕ
network (fetch url) w =
    (some (if str_eq url (host ++ bytes "/sha1-hello") then bytes "hello" else bytes "{}\r\n"), w)
network (post url body) w = (none, w)
network (upload url name path) w = (none, w)

abbrev here : State ℕ
here = record { index = test_index; world = 0 }

served_start :
    (w : ℕ)
    → network (fetch (build_enumeration_url host [])) w
      ≡ (some (listing test_qi test_libraries remote []), w)
unfolding build_enumeration_url str_eq handle_enumerate
served_start w = refl

served_key :
    (w : ℕ)
    → network (fetch (build_enumeration_url host (bytes "sha1-hello"))) w
      ≡ (some (listing test_qi test_libraries remote (bytes "sha1-hello")), w)
unfolding build_enumeration_url str_eq handle_enumerate
served_key w = refl

served :
    (w : ℕ) (from : Bytes)
    → IsStart remote from
    → network (fetch (build_enumeration_url host from)) w
      ≡ (some (listing test_qi test_libraries remote from), w)
unfolding blobref
served w from (inl e) = rw e (served_start w)
served w from (inr (inl e)) = rw e (served_key w)
served w from (inr (inr e)) = absurd e

page_start_lem : page_from remote [] ≡ (key, 0) ∷ []
unfolding paginate
page_start_lem = refl

page_key : page_from remote (bytes "sha1-hello") ≡ (key, 0) ∷ []
unfolding paginate key_lt
page_key = refl

page_one : (from : Bytes) → IsStart remote from → page_from remote from ≡ (key, 0) ∷ []
unfolding blobref
page_one from (inl e) = rw e page_start_lem
page_one from (inr (inl e)) = rw e page_key
page_one from (inr (inr e)) = absurd e

hello-IsContentOf : IsContentOf test_crypto test_config (bytes "sha1-hello") (bytes "hello")
unfolding str_eq blobref key_for sha1_of c_str
hello-IsContentOf = (λ e. cc, refl)

hello-IsServed : IsServed test_crypto test_config read_listed network host (bytes "sha1-hello")
unfolding build_blob_url str_eq ends_with
hello-IsServed = (bytes "hello", hello-IsContentOf, λ w. refl)

get_loop-Fetched_example :
    (t : State ℕ) × (get_loop test_crypto test_config read_listed network 2 host [] here
      ≡ done (true, t))
    × Fetched test_crypto test_config read_listed network host (bytes "sha1-hello" ∷ []) here t
unfolding blobref
get_loop-Fetched_example =
    get_loop-Fetched test_crypto test_config read_listed network host test_qi test_libraries remote
      (tt, tt) (ground arith) (ground arith) served
      (λ from h.
        ap (λ (pg : List (BlobKey × ℕ)). some (enumeration_json remote pg)) (sym (page_one from h)))
      2 here tt (hello-IsServed, tt) (ground arith)
