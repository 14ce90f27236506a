-- ===== src/Http/RequestParser/WellFormed.antt =====
-- What an accepted request is made of.
use camlispp.Prelude.{ℕ, ◌≡◌, ◌≢◌, true, false, List, [], ◌∷◌, ◌++◌, arith, All}
use camlispp.StdString.{Bytes, to_lower}
use camlispp.Http.Header.{Header, new_header, push_name, push_value, modify_back}
use camlispp.Http.Request.{Request}
use camlispp.Http.RequestParser.Defs.{
  State, method_start, header_line_start, RequestParser, is_true, is_false, indeterminate, Step,
  Parsed, consume, consume_in, continue, parse, is_ctl, is_token,
}

abbrev pub IsToken : ℕ → Type 0
IsToken c = is_token c ≡ true

abbrev pub IsClean : ℕ → Type 0
IsClean c = is_ctl c ≡ false

abbrev pub IsUriChar : ℕ → Type 0
IsUriChar c = (is_ctl c ≡ false) × (c ≢ b' ')

-- a lower-case token character
abbrev pub IsNameChar : ℕ → Type 0
IsNameChar c = (is_token c ≡ true) × (to_lower c ≡ c)

abbrev pub IsHeader : Header → Type 0
IsHeader h = (h.name ≢ []) × All IsNameChar h.name × All IsClean h.value

-- The parts of a request that was read.
pub record IsWellFormed (r : Request) : Type 0 where
  pub method_tokens : All IsToken r.method
  pub uri_chars : All IsUriChar r.uri
  pub header_lines : All IsHeader r.headers

All-snoc {ℓ κ} :
    {A : Type ℓ} (P : A → Type κ) (xs : List A) (c : A) → All P xs → P c → All P (xs ++ c ∷ [])
All-snoc P [] c h p = (p, tt)
All-snoc P (x ∷ xs) c h p = (h.0, All-snoc P xs c h.1 p)

snoc-ne-nil {ℓ} : {A : Type ℓ} (xs : List A) (c : A) → xs ++ c ∷ [] ≢ []
snoc-ne-nil [] c e = cc
snoc-ne-nil (x ∷ xs) c e = cc

to_lower-IsNameChar : (c : ℕ) → is_token c ≡ true → IsNameChar (to_lower c)
unfolding is_token to_lower
to_lower-IsNameChar c h = ground arith

All-modify_back :
    (f : Header → Header) (hs : List Header)
    → ((h : Header) → IsHeader h → IsHeader (f h))
    → All IsHeader hs
    → All IsHeader (modify_back f hs)
unfolding modify_back
All-modify_back f [] k h = tt
All-modify_back f (x ∷ []) k h = (k x h.0, tt)
All-modify_back f (x ∷ y ∷ hs) k h = (h.0, All-modify_back f (y ∷ hs) k h.1)

push_name-IsHeader :
    (c : ℕ) → is_token c ≡ true → (h : Header) → IsHeader h → IsHeader (push_name (to_lower c) h)
unfolding push_name
push_name-IsHeader c t h k = (
  snoc-ne-nil h.name (to_lower c),
  All-snoc IsNameChar h.name (to_lower c) k.1 (to_lower-IsNameChar c t),
  k.2,
)

push_value-IsHeader :
    (c : ℕ) → is_ctl c ≡ false → (h : Header) → IsHeader h → IsHeader (push_value c h)
unfolding push_value
push_value-IsHeader c t h k = (k.0, k.1, All-snoc IsClean h.value c k.2 t)

new_header-IsHeader : (c : ℕ) → is_token c ≡ true → IsHeader (push_name (to_lower c) new_header)
unfolding push_name
new_header-IsHeader c t = (λ e. absurd (cc), (to_lower-IsNameChar c t, tt), tt)

consume_in-IsWellFormed :
    (s : State) (p : RequestParser) (r : Request) (c : ℕ)
    → IsWellFormed r
    → IsWellFormed (consume_in s p r c).2
unfolding consume_in
consume_in-IsWellFormed method_start p r c h =
    ground (arith, All-snoc IsToken r.method c h.method_tokens)
consume_in-IsWellFormed State.method p r c h =
    ground (arith, All-snoc IsToken r.method c h.method_tokens)
consume_in-IsWellFormed State.uri p r c h = ground (arith, All-snoc IsUriChar r.uri c h.uri_chars)
consume_in-IsWellFormed header_line_start p r c h = ground (
  arith,
  new_header-IsHeader c,
  All-snoc IsHeader r.headers (push_name (to_lower c) new_header) h.header_lines,
)
consume_in-IsWellFormed State.header_lws p r c h = ground (
  arith,
  λ (t : is_ctl c ≡ false).
      All-modify_back (push_value c) r.headers (push_value-IsHeader c t) h.header_lines,
)
consume_in-IsWellFormed State.header_name p r c h = ground (
  arith,
  λ (t : is_token c ≡ true).
      All-modify_back (push_name (to_lower c)) r.headers (push_name-IsHeader c t) h.header_lines,
)
consume_in-IsWellFormed State.header_value_state p r c h = ground (
  arith,
  λ (t : is_ctl c ≡ false).
      All-modify_back (push_value c) r.headers (push_value-IsHeader c t) h.header_lines,
)
consume_in-IsWellFormed _ p r c h = ground arith

continue-IsWellFormed :
    (s : Step) (rest : Bytes) (more : Parsed)
    → IsWellFormed s.2
    → IsWellFormed more.request
    → IsWellFormed (continue s rest more).request
continue-IsWellFormed (indeterminate, p, r) rest more h k = k
continue-IsWellFormed (is_true, p, r) rest more h k = h
continue-IsWellFormed (is_false, p, r) rest more h k = h

-- Whatever the input and the state of the parser, a request whose parts are well formed stays so:
-- the method has token characters only, the URI no control character and no space, each header a
-- name of lower-case token characters, at least one, and a value without control characters.
pub parse-IsWellFormed :
    (p : RequestParser) (r : Request) (input : Bytes)
    → IsWellFormed r
    → IsWellFormed (parse p r input).request
unfolding parse
parse-IsWellFormed p r [] h = h
parse-IsWellFormed p r (c ∷ cs) h =
    let s = consume p r c in
    let now : IsWellFormed s.2 = unfold consume in consume_in-IsWellFormed p.state p r c h in
    continue-IsWellFormed s cs (parse s.1 s.2 cs) now (parse-IsWellFormed s.1 s.2 cs now)
