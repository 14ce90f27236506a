-- ===== src/Http/RequestParser/Defs.antt =====
-- The states, one function for each state with more than one test, and the loop of `parse`.
use camlispp.Prelude.{
  ℕ, ◌+◌, ◌-◌, ◌*◌, ◌%◌, ◌^◌, Bool, true, false, not, ◌&&◌, ◌||◌, List, [], ◌∷◌, ◌++◌, leb, ltb,
  ◌==◌, if◌then◌else◌,
}
use camlispp.StdString.{Bytes, bytes, to_lower}
use camlispp.Http.Header.{Header, new_header, push_name, push_value, modify_back}
use camlispp.Http.Request.{Request, header_value, int_positive}
use camlispp.Http.RequestParser.Atoi.{atoi, is_digit}

pub data State : Type 0 where
  method_start method uri : State
  http_version_h http_version_t_1 http_version_t_2 http_version_p http_version_slash : State
  http_version_major_start http_version_major http_version_minor_start http_version_minor : State
  expecting_newline_1 header_line_start header_lws header_name : State
  space_before_header_value header_value_state expecting_newline_2 expecting_newline_3 : State
  body : State

-- boost::tribool
pub data Tribool : Type 0 where
  is_true is_false indeterminate : Tribool

pub record RequestParser : Type 0 where
  pub state : State
  pub body_bytes : ℕ

-- A char is signed: a byte above 127 is negative there.
abbrev pub is_char : ℕ → Bool
is_char c = leb c 127

abbrev pub is_ctl : ℕ → Bool
is_ctl c = leb c 31 || c == 127

abbrev any_of : List ℕ → ℕ → Bool
any_of [] c = false
any_of (x ∷ xs) c = c == x || any_of xs c

unfoldable pub is_tspecial : ℕ → Bool
is_tspecial c = any_of (bytes "()<>@,;:\\\"/[]?={} \t") c

-- the test that three states share
unfoldable pub is_token : ℕ → Bool
unfolding is_tspecial
is_token c = not (not (is_char c) || is_ctl c || is_tspecial c)

abbrev pub Step : Type 0
Step = Tribool × RequestParser × Request

abbrev pub reject : RequestParser → Request → Step
reject p r = (is_false, p, r)

abbrev pub go : State → RequestParser → Request → Step
go s p r = (indeterminate, record p { state = s }, r)

-- states that wait for one character
abbrev pub expect : ℕ → ℕ → State → RequestParser → Request → Step
expect wanted c s p r = if c == wanted then go s p r else reject p r

abbrev pub push_digit : ℕ → ℕ → ℕ
push_digit n c = (n * 10 + (c - b'0')) % 2 ^ 32

abbrev no_headers : List Header → Bool
no_headers [] = true
no_headers (h ∷ hs) = false

unfoldable pub step_method_start : RequestParser → Request → ℕ → Step
unfolding is_token
step_method_start p r c =
    if not (is_token c)
    then reject p r
    else go method p (record r { method = r.method ++ (c ∷ []) })

unfoldable pub step_method : RequestParser → Request → ℕ → Step
unfolding is_token
step_method p r c =
    if c == b' '
    then go uri p r
    else if not (is_token c)
    then reject p r
    else (indeterminate, p, record r { method = r.method ++ (c ∷ []) })

unfoldable pub step_uri : RequestParser → Request → ℕ → Step
step_uri p r c =
    if c == b' '
    then go http_version_h p r
    else if is_ctl c
    then reject p r
    else (indeterminate, p, record r { uri = r.uri ++ (c ∷ []) })

unfoldable pub step_http_version_slash : RequestParser → Request → ℕ → Step
step_http_version_slash p r c =
    expect b'/' c http_version_major_start p
      (if c == b'/' then record r { http_version_major = 0; http_version_minor = 0 } else r)

unfoldable pub step_major : State → RequestParser → Request → ℕ → Step
step_major s p r c =
    if is_digit c
    then go s p (record r { http_version_major = push_digit r.http_version_major c })
    else reject p r

unfoldable pub step_minor : State → RequestParser → Request → ℕ → Step
step_minor s p r c =
    if is_digit c
    then go s p (record r { http_version_minor = push_digit r.http_version_minor c })
    else reject p r

unfoldable pub step_header_line_start : RequestParser → Request → ℕ → Step
unfolding is_token push_name to_lower
step_header_line_start p r c =
    if c == b'\r'
    then go expecting_newline_3 p r
    else if not (no_headers r.headers) && (c == b' ' || c == b'\t')
    then go header_lws p r
    else if not (is_token c)
    then reject p r
    else go header_name p
        (record r { headers = r.headers ++ (push_name (to_lower c) new_header ∷ []) })

unfoldable pub step_header_lws : RequestParser → Request → ℕ → Step
unfolding push_value modify_back
step_header_lws p r c =
    if c == b'\r'
    then go expecting_newline_2 p r
    else if c == b' ' || c == b'\t'
    then (indeterminate, p, r)
    else if is_ctl c
    then reject p r
    else go header_value_state p (record r { headers = modify_back (push_value c) r.headers })

unfoldable pub step_header_name : RequestParser → Request → ℕ → Step
unfolding is_token push_name modify_back to_lower
step_header_name p r c =
    if c == b':'
    then go space_before_header_value p r
    else if not (is_token c)
    then reject p r
    else (indeterminate, p, record r { headers = modify_back (push_name (to_lower c)) r.headers })

unfoldable pub step_header_value : RequestParser → Request → ℕ → Step
unfolding push_value modify_back
step_header_value p r c =
    if c == b'\r'
    then go expecting_newline_2 p r
    else if is_ctl c
    then reject p r
    else (indeterminate, p, record r { headers = modify_back (push_value c) r.headers })

abbrev pub max_content : ℕ
max_content = 16 * 1024 * 1024

-- the int that atoi makes of the header
unfoldable pub content_length : Request → ℕ
unfolding header_value atoi
content_length r = atoi (header_value (bytes "content-length") r.headers)

unfoldable pub step_end_of_headers : RequestParser → Request → ℕ → Step
step_end_of_headers p r c =
    let clen = content_length r in
    if not (c == b'\n')
    then (is_false, p, r)
    else if int_positive clen
    then (if ltb max_content clen
        then reject p r
        else (indeterminate, record { state = body; body_bytes = clen }, r))
    else (is_true, p, r)

unfoldable pub step_body : RequestParser → Request → ℕ → Step
step_body p r c =
    let left = (p.body_bytes + 2 ^ 32 - 1) % 2 ^ 32 in
    let result = if left == 0 then is_true else indeterminate in
    (result, record p { body_bytes = left }, record r { content = r.content ++ (c ∷ []) })

unfoldable pub consume_in : State → RequestParser → Request → ℕ → Step
unfolding step_method_start step_method step_uri step_http_version_slash step_major step_minor
    step_header_line_start step_header_lws step_header_name step_header_value step_end_of_headers
    step_body
consume_in method_start p r c = step_method_start p r c
consume_in method p r c = step_method p r c
consume_in uri p r c = step_uri p r c
consume_in http_version_h p r c = expect b'H' c http_version_t_1 p r
consume_in http_version_t_1 p r c = expect b'T' c http_version_t_2 p r
consume_in http_version_t_2 p r c = expect b'T' c http_version_p p r
consume_in http_version_p p r c = expect b'P' c http_version_slash p r
consume_in http_version_slash p r c = step_http_version_slash p r c
consume_in http_version_major_start p r c = step_major http_version_major p r c
consume_in http_version_major p r c =
    if c == b'.' then go http_version_minor_start p r else step_major http_version_major p r c
consume_in http_version_minor_start p r c = step_minor http_version_minor p r c
consume_in http_version_minor p r c =
    if c == b'\r' then go expecting_newline_1 p r else step_minor http_version_minor p r c
consume_in expecting_newline_1 p r c = expect b'\n' c header_line_start p r
consume_in header_line_start p r c = step_header_line_start p r c
consume_in header_lws p r c = step_header_lws p r c
consume_in header_name p r c = step_header_name p r c
consume_in space_before_header_value p r c = expect b' ' c header_value_state p r
consume_in header_value_state p r c = step_header_value p r c
consume_in expecting_newline_2 p r c = expect b'\n' c header_line_start p r
consume_in expecting_newline_3 p r c = step_end_of_headers p r c
consume_in body p r c = step_body p r c

unfoldable pub consume : RequestParser → Request → ℕ → Step
unfolding consume_in
consume p r c = consume_in p.state p r c

-- The result, the parser and the request, and the input that is left.
pub record Parsed : Type 0 where
  pub result : Tribool
  pub parser : RequestParser
  pub request : Request
  pub rest : Bytes

-- after one character: the loop stops at a definite result
abbrev pub continue : Step → Bytes → Parsed → Parsed
continue (indeterminate, p, r) rest more = more
continue (is_true, p, r) rest more = record {
  result = is_true;
  parser = p;
  request = r;
  rest = rest;
}
continue (is_false, p, r) rest more = record {
  result = is_false;
  parser = p;
  request = r;
  rest = rest;
}

unfoldable pub parse : RequestParser → Request → Bytes → Parsed
parse p r [] = record { result = indeterminate; parser = p; request = r; rest = [] }
parse p r (c ∷ cs) = let s = consume p r c in let more = parse s.1 s.2 cs in continue s cs more

abbrev pub initial : ℕ → RequestParser
initial uninitialised = record { state = method_start; body_bytes = uninitialised }

-- request_parser::reset, which the program does not call
unfoldable pub reset : RequestParser → RequestParser
reset p = record p { state = method_start }
