-- ===== src/Sync/Addresses.antt =====
-- The address of an enumeration, as the server of this program reads it.
use camlispp.Prelude.{
  ℕ, ◌≡◌, ◌≢◌, refl, sym, ap, ◌∙◌, ◌⊎◌, inl, inr, false, [], ◌∷◌, ◌++◌, Option, none, some, arith,
  length, drop, All, append-nil, if◌then◌else◌, ltb,
}
use camlispp.StdString.{Bytes, bytes, find, find_byte, find_absent, starts_with}
use camlispp.BlobKey.Order.{key_order}
use camlispp.Qi.{Qi, element, on_first, on_second, snoc, parse_with}
use camlispp.Qi.Runs.{Fails, seq-Fails, element-Fails}
use camlispp.Http.Multipart.{Attributes}
use camlispp.Http.Grammars.{
  qi_grammars, parse_query, query, query_pair, query_key, query_value, next_pair, is_key_start,
  is_key_char, add_pair, bytes_order,
}
use camlispp.Http.Grammars.Pairs.{IsValue, parse_query-write_query}
use camlispp.Http.RequestHandler.{decode_query_string_after, after_value}
use camlispp.Sync.Urls.{build_enumeration_url}

-- The path of an enumeration from a text on, or from the start.
abbrev pub enumeration_path : Bytes → Bytes
enumeration_path from =
    bytes "/enumerate-blobs" ++ (if ltb 0 (length from) then bytes "?after=" ++ from else [])

pub build_enumeration_url-enumeration_path :
    (host from : Bytes) → build_enumeration_url host from ≡ host ++ enumeration_path from
unfolding build_enumeration_url
build_enumeration_url-enumeration_path host from = refl

abbrev pub after_of : Bytes → Option Bytes
after_of [] = none
after_of (c ∷ cs) = some (c ∷ cs)

cons-ne-nil : (c : ℕ) (cs : Bytes) → c ∷ cs ≢ []
cons-ne-nil c cs e = cc

module _ (qi : Qi) where
  parse_after :
      (c : ℕ) (cs : Bytes)
      → IsValue (c ∷ cs)
      → parse_query qi (bytes "after=" ++ c ∷ cs) ≡ some ((bytes "after", c ∷ cs) ∷ [])
  unfolding add_pair
  parse_after c cs h =
      ap (λ (t : Bytes). parse_query qi (bytes "after=" ++ c ∷ t)) (sym (append-nil cs))
      ∙ parse_query-write_query qi (bytes "after", c ∷ cs) [] (((refl, ground arith), h), tt)

  on_first-Fails :
      (s : Bytes)
      → Fails (query_key qi [] s)
      → Fails (on_first {B = Bytes} (query_key qi) ([], []) s)
  on_first-Fails s (b, e) = ((b, []), rw (e, on_first) refl)

  -- A text that starts with no key is not read.
  parse_query_no_key :
      (c : ℕ) (cs : Bytes) → is_key_start c ≡ false → parse_query qi (c ∷ cs) ≡ none
  unfolding parse_query query query_pair query_key
  parse_query_no_key c cs h =
      let P = Bytes × Bytes in
      let start : Fails (qi.char_ is_key_start 0 (c ∷ cs)) =
        (0, qi.char_law is_key_start 0 (c ∷ cs) ∙ rw h refl) in
      let key =
        seq-Fails qi (element snoc 0 (qi.char_ is_key_start))
          (qi.kleene ℕ Bytes snoc 0 (qi.char_ is_key_char)) [] (c ∷ cs)
          (element-Fails qi snoc 0 (qi.char_ is_key_start) [] (c ∷ cs) start) in
      let pair =
        seq-Fails qi (on_first (query_key qi))
          (qi.opt P (qi.seq P (qi.lit P (b'=' ∷ [])) (on_second (query_value qi)))) ([], [])
          (c ∷ cs) (on_first-Fails (c ∷ cs) key) in
      let all =
        seq-Fails qi (element add_pair ([], []) (query_pair qi))
          (qi.kleene P Attributes add_pair ([], []) (next_pair qi)) [] (c ∷ cs)
          (element-Fails qi add_pair ([], []) (query_pair qi) [] (c ∷ cs) pair) in
      rw (all.1, parse_with) refl

  -- with no question mark the whole path is taken for a query, which it is not
  decode_absent :
      (c : ℕ) (cs : Bytes)
      → All (λ d. d ≢ b'?') (c ∷ cs)
      → is_key_start c ≡ false
      → decode_query_string_after (qi_grammars qi) (c ∷ cs) ≡ none
  unfolding decode_query_string_after
  decode_absent c cs h k =
      let absent = find_absent b'?' (c ∷ cs) h in
      let unread = parse_query_no_key c cs k in
      rw (absent, decode_query_string_after) (rw unread (ground arith))

  decode_found :
      (s rest : Bytes) (m : Attributes)
      → find s (b'?' ∷ []) ≡ 16
      → drop 17 s ≡ rest
      → parse_query qi rest ≡ some m
      → decode_query_string_after (qi_grammars qi) s ≡ after_value m
  unfolding decode_query_string_after
  decode_found s rest m f d e = rw (f, d, e, decode_query_string_after) refl

  -- The server reads from the address the text to go on after.
  pub decode_query_string_after-enumeration_path :
      (from : Bytes)
      → (from ≡ []) ⊎ IsValue from
      → decode_query_string_after (qi_grammars qi) (enumeration_path from) ≡ after_of from
  unfolding decode_query_string_after after_value starts_with
  decode_query_string_after-enumeration_path [] h =
      decode_absent b'/' (bytes "enumerate-blobs") (ground arith) refl
  decode_query_string_after-enumeration_path (c ∷ cs) (inl e) = absurd (cons-ne-nil c cs e)
  decode_query_string_after-enumeration_path (c ∷ cs) (inr h) =
      let found =
        find_byte b'?' (bytes "/enumerate-blobs") (bytes "after=" ++ c ∷ cs) (ground arith) in
      let path : enumeration_path (c ∷ cs) ≡ bytes "/enumerate-blobs?after=" ++ c ∷ cs =
        ground arith in
      ap (decode_query_string_after (qi_grammars qi)) path
      ∙ decode_found (bytes "/enumerate-blobs?after=" ++ c ∷ cs) (bytes "after=" ++ c ∷ cs)
          ((bytes "after", c ∷ cs) ∷ []) found refl (parse_after c cs h)
