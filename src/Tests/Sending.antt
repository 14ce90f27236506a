-- ===== src/Tests/Sending.antt =====
-- Tests of the thread: the loop that sends, with a full page, and the answers that it reads.
use camlispp.Prelude.{ℕ, ◌≡◌, ◌⊎◌, none, some, true, arith, List, []}
use camlispp.StdString.{bytes}
use camlispp.BlobKey.{BlobKey}
use camlispp.BlobIndex.{aborted, done}
use camlispp.Http.RequestHandler.{obj, end, enumeration_json, shown, continue_after}
use camlispp.Http.RequestHandler.Enumeration.{item_refs}
use camlispp.Sync.{State, send_loop, SyncEnumeration, enumeration_of, last}
use camlispp.Sync.Sending.{send_loop_ends}
use camlispp.Sync.Reading.{enumeration_of-enumeration_json}
use camlispp.Tests.{test_crypto, test_config, test_index}
use camlispp.Tests.Index.{numbered, numbered-IsSorted, numbered-IsPlain}

abbrev full_page : State ℕ
full_page = record { index = record test_index { blobs = numbered 501 1 }; world = 0 }

send_loop_ends_example :
    (send_loop test_crypto test_config
        (λ s. some (obj end))
        (λ c w. (some [], w))
        2
        (bytes "h")
        none
        full_page
      ≡ aborted)
    ⊎ ((t : State ℕ) × (send_loop test_crypto test_config
            (λ s. some (obj end))
            (λ c w. (some [], w))
            2
            (bytes "h")
            none
            full_page
          ≡ done (true, t))
        × (t.index ≡ full_page.index))
send_loop_ends_example =
    send_loop_ends test_crypto test_config (λ s. some (obj end)) (λ c w. (some [], w)) (bytes "h") 2
      full_page (numbered-IsSorted 501 1) (numbered-IsPlain 501 1) (ground arith)

-- 26 entries, the last of which is named only by "continueAfter"
abbrev page : List (BlobKey × ℕ)
page = numbered 26 1

enumeration_of-enumeration_json_example :
    (e : SyncEnumeration) × (enumeration_of (enumeration_json test_index page) ≡ done (some e))
    × (last e ≡ continue_after page)
    × (e.blob_refs ≡ item_refs (shown 0 test_index page))
enumeration_of-enumeration_json_example = enumeration_of-enumeration_json test_index page
