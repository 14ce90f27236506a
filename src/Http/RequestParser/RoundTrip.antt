-- ===== src/Http/RequestParser/RoundTrip.antt =====
-- A request that is written out is read back.
use camlispp.Prelude.{
  ℕ, suc, ◌-◌, ◌^◌, ◌≤◌, ◌<◌, ◌≡◌, ◌≢◌, refl, sym, ap, ◌∙◌, subst, inl, inr, true, false, [], ◌∷◌,
  ◌++◌, arith, All, length, append_assoc,
}
use camlispp.StdString.{Bytes}
use camlispp.Http.Request.{Request, int_positive, cleared}
use camlispp.Http.RequestParser.Defs.{
  method_start, header_line_start, expecting_newline_3, body, RequestParser, is_true, consume,
  parse, initial, content_length, max_content,
}
use camlispp.Http.RequestParser.Bounds.{IsComplete}
use camlispp.Http.RequestParser.WellFormed.{IsToken, IsWellFormed}
use camlispp.Http.RequestParser.WrittenLines.{
  first-method, after-method, parse-method, parse-uri, after-uri, parse-version, parse-headers,
  parse-end, parse-end_body, at, finished, version, write_headers,
}

parse-body :
    (left : ℕ) (x : ℕ) (xs : Bytes) (r : Request) (rest : Bytes)
    → left ≡ suc (length xs)
    → left < 2 ^ 32
    → parse (at body left) r (x ∷ (xs ++ rest))
      ≡ finished (at body 0) (record r { content = r.content ++ x ∷ xs }) rest
unfolding parse consume
parse-body left x [] r rest e h = ground arith
parse-body left x (y ∷ xs) r rest e h = ground (
  arith,
  parse-body (left - 1) y xs (record r { content = r.content ++ x ∷ [] }) rest,
  append_assoc r.content (x ∷ []) (y ∷ xs),
)

-- A request as a client writes it.
abbrev pub write_request : Request → Bytes → Bytes
write_request r rest =
    r.method
    ++ (b' '
        ∷ (r.uri
            ++ (b' '
                ∷ version r.http_version_major r.http_version_minor
                    (write_headers r.headers (b'\r' ∷ b'\n' ∷ (r.content ++ rest))))))

abbrev no_content : Request → Request
no_content r = record r { content = [] }

parse-head :
    (b : ℕ) (m : Bytes) (r : Request) (rest : Bytes)
    → r.method ≡ m
    → m ≢ []
    → IsWellFormed r
    → r.http_version_major < 10
    → r.http_version_minor < 10
    → parse (at method_start b) cleared (write_request r rest)
      ≡ parse (at header_line_start b) (no_content r) (b'\r' ∷ b'\n' ∷ (r.content ++ rest))
parse-head b [] r rest e ne w h k = absurd (ne refl)
parse-head b (c ∷ m) r rest e ne w h k =
    let tokens : All IsToken (c ∷ m) = subst (All IsToken) e w.method_tokens in
    rw e (
      first-method b c _ tokens.0
      ∙ parse-method b m (record cleared { method = c ∷ [] }) _ tokens.1
      ∙ after-method b _ _
      ∙ parse-uri b r.uri _ _ w.uri_chars
      ∙ after-uri b _ _
      ∙ parse-version b r.http_version_major r.http_version_minor _ _ h k
      ∙ parse-headers b r.headers _ _ w.header_lines)

no_body : (r : Request) → IsComplete r → r.content ≡ [] → int_positive (content_length r) ≡ false
no_body r (inl h) e = absurd (let l = ap length e in omega arith)
no_body r (inr h) e = h.1

some_body :
    (r : Request) (x : ℕ) (xs : Bytes)
    → IsComplete r
    → r.content ≡ x ∷ xs
    → (int_positive (content_length r) ≡ true)
      × (content_length r ≤ max_content)
      × (content_length r ≡ suc (length xs))
some_body r x xs (inl h) e =
    let l : length r.content ≡ suc (length xs) = ap length e in
    (ground arith, omega arith, omega arith)
some_body r x xs (inr h) e = absurd (cc (h.0, e))

parse-tail :
    (b : ℕ) (content : Bytes) (r : Request) (rest : Bytes)
    → r.content ≡ content
    → IsComplete r
    → (p : RequestParser) × (parse
          (at header_line_start b)
          (no_content r)
          (b'\r' ∷ b'\n' ∷ (content ++ rest))
        ≡ finished p r rest)
unfolding content_length
parse-tail b [] r rest e c =
    let whole : no_content r ≡ r = ap (λ (t : Bytes). record r { content = t }) (sym e) in
    (
      at expecting_newline_3 b,
      parse-end b (no_content r) rest (no_body r c e)
          ∙ ap (λ (q : Request). finished (at expecting_newline_3 b) q rest) whole,
    )
parse-tail b (x ∷ xs) r rest e c =
    let whole : record r { content = x ∷ xs } ≡ r =
      ap (λ (t : Bytes). record r { content = t }) (sym e) in
    let (positive, small, fits) = some_body r x xs c e in
    (
      at body 0,
      parse-end_body b (no_content r) (x ∷ (xs ++ rest)) positive small
          ∙ parse-body (content_length r) x xs (no_content r) rest fits (omega arith)
          ∙ ap (λ (q : Request). finished (at body 0) q rest) whole,
    )

-- A request that is written out is read back whole, and what follows it is left: its parts must
-- be well formed, its method not empty, its version numbers single digits, and its content as
-- long as its content-length header says.
pub parse-write_request :
    (uninitialised : ℕ) (r : Request) (rest : Bytes)
    → IsWellFormed r
    → r.method ≢ []
    → r.http_version_major < 10
    → r.http_version_minor < 10
    → IsComplete r
    → (p : RequestParser) × (parse (initial uninitialised) cleared (write_request r rest)
        ≡ record { result = is_true; parser = p; request = r; rest = rest })
parse-write_request b r rest w ne h k c =
    let (p, tail) = parse-tail b r.content r rest refl c in
    (p, parse-head b r.method r rest refl ne w h k ∙ tail)
