-- ===== src/Tests/Following.antt =====
-- Tests of a client that follows "continueAfter": an index of two pages, and what two uploads leave.
use camlispp.Prelude.{ℕ, zero, suc, ◌+◌, ◌≤◌, ◌≡◌, [], ◌∷◌, map, All, length, arith}
use camlispp.StdString.{Bytes, decimal}
use camlispp.Http.RequestParser.Decimal.{decimal-IsDigits, IsDigits}
use camlispp.BlobKey.{blobref}
use camlispp.BlobIndex.{BlobIndex, done}
use camlispp.Http.Grammars.{is_value_char}
use camlispp.Http.Grammars.Pairs.{IsIn}
use camlispp.Http.RequestHandler.{Libraries}
use camlispp.Http.RequestHandler.Enumeration.{entry_ref}
use camlispp.Http.RequestHandler.Invariant.{serve}
use camlispp.Http.RequestHandler.Forms.{with_qi}
use camlispp.Sync.Asking.{IsAskable}
use camlispp.Sync.Following.{
  follow_pages, follow_pages_complete, HasHexDigests, RepliesJson, follow_pages-serve,
}
use camlispp.Tests.{test_libraries, test_config, test_disk, test_index}
use camlispp.Tests.Index.{numbered, numbered-IsSorted, numbered-IsPlain}
use camlispp.Tests.Qi.{test_qi}
use camlispp.Tests.Uploads.{upload}

-- keys that end in the letters from a to z
abbrev letters : BlobIndex
letters = record test_index { blobs = numbered 26 b'a' }

numbered-IsAskable : (n c : ℕ) → 97 ≤ c → c + n ≤ 123 → IsAskable (numbered n c)
unfolding blobref
numbered-IsAskable zero c h k = tt
numbered-IsAskable (suc n) c h k =
    ((λ e. cc, ground arith), numbered-IsAskable n (suc c) (omega arith) (omega arith))

follow_pages_complete_example :
    RepliesJson test_qi test_libraries letters
    × (follow_pages test_qi 27 [] letters ≡ map entry_ref (numbered 26 b'a'))
follow_pages_complete_example =
    follow_pages_complete test_qi test_libraries letters 27 (numbered-IsSorted 26 b'a')
      (numbered-IsPlain 26 b'a') (numbered-IsAskable 26 b'a' (omega arith) (omega arith))
      (ground arith)

-- the number of bytes as the digest
abbrev counts : Libraries
counts = record test_libraries {
  crypto = record { sha1_hex = λ s. decimal (length s); sha256_hex = λ s. decimal (length s) };
}

digits-IsIn : (s : Bytes) → IsDigits s → All (IsIn is_value_char) s
digits-IsIn [] h = tt
digits-IsIn (c ∷ s) h = (ground (arith, h.0), digits-IsIn s h.1)

counts-HasHexDigests : HasHexDigests counts.crypto
counts-HasHexDigests s =
    let digits = digits-IsIn (decimal (length s)) (decimal-IsDigits (length s)) in (digits, digits)

follow_pages-serve_example :
    (j : BlobIndex) × (serve (with_qi test_qi counts) test_config (upload ∷ upload ∷ []) test_index
      ≡ done j)
    × RepliesJson test_qi counts j
    × (follow_pages test_qi (suc (length j.blobs)) [] j ≡ map entry_ref j.blobs)
follow_pages-serve_example =
    follow_pages-serve test_qi counts test_config test_disk (upload ∷ upload ∷ [])
      counts-HasHexDigests
