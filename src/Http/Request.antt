-- ===== src/Http/Request.antt =====
-- blobserver/src/request.hpp: a request and what it says of the connection. An int is the bit
-- pattern of its 32 bits; arithmetic on it wraps.
use camlispp.Prelude.{
  ℕ, ◌^◌, Bool, true, false, ◌&&◌, ◌||◌, List, [], ◌∷◌, ◌==◌, ltb, if◌then◌else◌,
}
use camlispp.StdString.{Bytes, bytes, str_eq, to_lower_copy}
use camlispp.Http.Header.{Header}

pub record Request : Type 0 where
  pub method : Bytes
  pub uri : Bytes
  pub http_version_major : ℕ
  pub http_version_minor : ℕ
  pub headers : List Header
  pub content : Bytes

-- request::clear
abbrev pub cleared : Request
cleared = record {
  method = [];
  uri = [];
  http_version_major = 0;
  http_version_minor = 0;
  headers = [];
  content = [];
}

-- request::get_header
unfoldable pub header_value : Bytes → List Header → Bytes
unfolding str_eq
header_value name [] = []
header_value name (h ∷ hs) = if str_eq h.name name then h.value else header_value name hs

-- `0 < n` for an int
abbrev pub int_positive : ℕ → Bool
int_positive n = ltb 0 n && ltb n (2 ^ 31)

unfoldable pub is_http11 : Request → Bool
is_http11 r =
    (int_positive r.http_version_major && ltb 1 r.http_version_major)
    || (r.http_version_major == 1 && int_positive r.http_version_minor)

unfoldable pub want_keepalive : Request → Bool
unfolding is_http11 header_value to_lower_copy str_eq
want_keepalive r =
    let cxn_hdr = to_lower_copy (header_value (bytes "connection") r.headers) in
    if str_eq cxn_hdr (bytes "close")
    then false
    else if str_eq cxn_hdr (bytes "keep-alive")
    then true
    else is_http11 r
