-- ===== src/Http/RequestParser/WrittenLines.antt =====
-- The first line and the headers of a request that is written out are read back. Each lemma runs
-- the parser over one piece, with any `rest` behind it.
use camlispp.Prelude.{
  ℕ, ◌+◌, ◌≤◌, ◌<◌, ◌≡◌, refl, ap, ◌∙◌, true, false, List, [], ◌∷◌, ◌++◌, arith, All, append-nil,
  append_assoc,
}
use camlispp.StdString.{Bytes, bytes, to_lower}
use camlispp.Http.Header.{Header, push_name, push_value, modify_back}
use camlispp.Http.Request.{Request, int_positive, cleared}
use camlispp.Http.RequestParser.Defs.{
  State, method_start, method, uri, http_version_h, header_line_start, header_name,
  header_value_state, expecting_newline_3, body, RequestParser, is_true, Parsed, consume, parse,
  is_token, content_length, max_content,
}
use camlispp.Http.RequestParser.WellFormed.{IsToken, IsClean, IsUriChar, IsNameChar, IsHeader}

abbrev pub at : State → ℕ → RequestParser
at s b = record { state = s; body_bytes = b }

abbrev pub finished : RequestParser → Request → Bytes → Parsed
finished p r rest = record { result = is_true; parser = p; request = r; rest = rest }

-- the version, from behind the URI to the first line's end
abbrev pub version : ℕ → ℕ → Bytes → Bytes
version major minor rest =
    bytes "HTTP/" ++ ((b'0' + major) ∷ b'.' ∷ (b'0' + minor) ∷ b'\r' ∷ b'\n' ∷ rest)

module _ (b : ℕ) where
  pub first-method :
      (c : ℕ) (rest : Bytes)
      → IsToken c
      → parse (at method_start b) cleared (c ∷ rest)
        ≡ parse (at method b) (record cleared { method = c ∷ [] }) rest
  unfolding parse consume is_token
  first-method c rest h = ground arith

  pub after-method :
      (r : Request) (rest : Bytes) → parse (at method b) r (b' ' ∷ rest) ≡ parse (at uri b) r rest
  unfolding parse consume
  after-method r rest = ground arith

  pub after-uri :
      (r : Request) (rest : Bytes)
      → parse (at uri b) r (b' ' ∷ rest) ≡ parse (at http_version_h b) r rest
  unfolding parse consume
  after-uri r rest = ground arith

  pub parse-method :
      (m : Bytes) (r : Request) (rest : Bytes)
      → All IsToken m
      → parse (at method b) r (m ++ rest)
        ≡ parse (at method b) (record r { method = r.method ++ m }) rest
  unfolding parse consume is_token
  parse-method [] r rest h = rw append-nil
  parse-method (c ∷ m) r rest h = ground (
    arith,
    parse-method m (record r { method = r.method ++ c ∷ [] }) rest h.1,
    append_assoc r.method (c ∷ []) m,
  )

  pub parse-uri :
      (u : Bytes) (r : Request) (rest : Bytes)
      → All IsUriChar u
      → parse (at uri b) r (u ++ rest) ≡ parse (at uri b) (record r { uri = r.uri ++ u }) rest
  unfolding parse consume
  parse-uri [] r rest h = rw append-nil
  parse-uri (c ∷ u) r rest h = ground (
    arith,
    parse-uri u (record r { uri = r.uri ++ c ∷ [] }) rest h.1,
    append_assoc r.uri (c ∷ []) u,
  )

  pub parse-version :
      (major minor : ℕ) (r : Request) (rest : Bytes)
      → major < 10
      → minor < 10
      → parse (at http_version_h b) r (version major minor rest)
        ≡ parse
            (at header_line_start b)
            (record r { http_version_major = major; http_version_minor = minor })
            rest
  unfolding parse consume
  parse-version major minor r rest h k = ground arith

modify_back-snoc :
    (f : Header → Header) (hs : List Header) (h : Header)
    → modify_back f (hs ++ h ∷ []) ≡ hs ++ f h ∷ []
unfolding modify_back
modify_back-snoc f [] h = refl
modify_back-snoc f (x ∷ []) h = refl
modify_back-snoc f (x ∷ y ∷ hs) h = ap (◌∷◌ x) (modify_back-snoc f (y ∷ hs) h)

-- The request with one more header.
abbrev with_header : Request → Header → Request
with_header r h = record r { headers = r.headers ++ h ∷ [] }

-- one header's line
abbrev pub write_header : Header → Bytes → Bytes
write_header h rest = h.name ++ (b':' ∷ b' ' ∷ (h.value ++ (b'\r' ∷ b'\n' ∷ rest)))

abbrev pub write_headers : List Header → Bytes → Bytes
write_headers [] rest = rest
write_headers (h ∷ hs) rest = write_header h (write_headers hs rest)

module _ (b : ℕ) where
  step-name :
      (c : ℕ) (r : Request) (h : Header) (rest : Bytes)
      → IsNameChar c
      → parse (at header_name b) (with_header r h) (c ∷ rest)
        ≡ parse (at header_name b) (with_header r (record h { name = h.name ++ c ∷ [] })) rest
  unfolding parse consume is_token push_name
  step-name c r h rest k = ground (arith, modify_back-snoc (push_name (to_lower c)) r.headers h)

  parse-name :
      (n : Bytes) (r : Request) (h : Header) (rest : Bytes)
      → All IsNameChar n
      → parse (at header_name b) (with_header r h) (n ++ rest)
        ≡ parse (at header_name b) (with_header r (record h { name = h.name ++ n })) rest
  parse-name [] r h rest k = rw append-nil
  parse-name (c ∷ n) r h rest k =
      step-name c r h (n ++ rest) k.0
      ∙ parse-name n r (record h { name = h.name ++ c ∷ [] }) rest k.1
      ∙ rw append_assoc

  step-value :
      (c : ℕ) (r : Request) (h : Header) (rest : Bytes)
      → IsClean c
      → parse (at header_value_state b) (with_header r h) (c ∷ rest)
        ≡ parse
            (at header_value_state b)
            (with_header r (record h { value = h.value ++ c ∷ [] }))
            rest
  unfolding parse consume push_value
  step-value c r h rest k = ground (arith, modify_back-snoc (push_value c) r.headers h)

  parse-value :
      (v : Bytes) (r : Request) (h : Header) (rest : Bytes)
      → All IsClean v
      → parse (at header_value_state b) (with_header r h) (v ++ rest)
        ≡ parse (at header_value_state b) (with_header r (record h { value = h.value ++ v })) rest
  parse-value [] r h rest k = rw append-nil
  parse-value (c ∷ v) r h rest k =
      step-value c r h (v ++ rest) k.0
      ∙ parse-value v r (record h { value = h.value ++ c ∷ [] }) rest k.1
      ∙ rw append_assoc

  first-name :
      (c : ℕ) (r : Request) (rest : Bytes)
      → IsNameChar c
      → parse (at header_line_start b) r (c ∷ rest)
        ≡ parse (at header_name b) (with_header r (record { name = c ∷ []; value = [] })) rest
  unfolding parse consume is_token push_name
  first-name c r rest k = ground arith

  after-name :
      (r : Request) (rest : Bytes)
      → parse (at header_name b) r (b':' ∷ b' ' ∷ rest) ≡ parse (at header_value_state b) r rest
  unfolding parse consume
  after-name r rest = ground arith

  after-value :
      (r : Request) (rest : Bytes)
      → parse (at header_value_state b) r (b'\r' ∷ b'\n' ∷ rest)
        ≡ parse (at header_line_start b) r rest
  unfolding parse consume
  after-value r rest = ground arith

  parse-named :
      (n v : Bytes) (r : Request) (rest : Bytes)
      → IsHeader (record { name = n; value = v })
      → parse (at header_line_start b) r (write_header (record { name = n; value = v }) rest)
        ≡ parse (at header_line_start b) (with_header r (record { name = n; value = v })) rest
  parse-named [] v r rest k = absurd (k.0 refl)
  parse-named (c ∷ n) v r rest k =
      let h : Header = record { name = c ∷ n; value = [] } in
      first-name c r _ k.1.0
      ∙ parse-name n r (record { name = c ∷ []; value = [] }) _ k.1.1
      ∙ after-name (with_header r h) _
      ∙ parse-value v r h _ k.2
      ∙ after-value _ rest

  -- the headers' lines, one after the other
  pub parse-headers :
      (hs : List Header) (r : Request) (rest : Bytes)
      → All IsHeader hs
      → parse (at header_line_start b) r (write_headers hs rest)
        ≡ parse (at header_line_start b) (record r { headers = r.headers ++ hs }) rest
  parse-headers [] r rest k = rw append-nil
  parse-headers (h ∷ hs) r rest k =
      parse-named h.name h.value r (write_headers hs rest) k.0
      ∙ parse-headers hs (with_header r h) rest k.1
      ∙ rw append_assoc

  pub parse-end :
      (r : Request) (rest : Bytes)
      → int_positive (content_length r) ≡ false
      → parse (at header_line_start b) r (b'\r' ∷ b'\n' ∷ rest)
        ≡ finished (at expecting_newline_3 b) r rest
  unfolding parse consume
  parse-end r rest h = ground arith

  pub parse-end_body :
      (r : Request) (rest : Bytes)
      → int_positive (content_length r) ≡ true
      → content_length r ≤ max_content
      → parse (at header_line_start b) r (b'\r' ∷ b'\n' ∷ rest)
        ≡ parse (at body (content_length r)) r rest
  unfolding parse consume
  parse-end_body r rest h k = ground arith
