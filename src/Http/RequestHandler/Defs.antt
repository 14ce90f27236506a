-- ===== src/Http/RequestHandler/Defs.antt =====
-- The handlers. A handler takes the index and returns the index after it with the reply. The
-- build has ENABLE_STATIC, which is the default, and neither ENABLE_DUMP nor ENABLE_DEBUG_LOAD.
use camlispp.Prelude.{
  ℕ, zero, suc, ◌+◌, ◌-◌, ◌^◌, Bool, not, ◌&&◌, List, [], ◌∷◌, ◌++◌, Option, none, some, ltb, ◌==◌,
  if◌then◌else◌, length, get_elem?, take, drop,
}
use camlispp.StdString.{
  Bytes, bytes, str_eq, find_last_of, npos, substr, starts_with, ends_with, to_lower_copy, c_str,
  decimal,
}
use camlispp.Blob.{Blob}
use camlispp.Config.{Config}
use camlispp.Hash.{Crypto}
use camlispp.BlobIndex.{Disk, BlobIndex, get}
use camlispp.Http.Header.{Header}
use camlispp.Http.Request.{Request}
use camlispp.Http.Reply.{Reply, ok, not_found, stock_reply}
use camlispp.Http.MimeTypes.{extension_to_type}
use camlispp.Http.Multipart.{Grammars}

-- The values of json_spirit that the program builds and reads; `other` is a null or a real number,
-- which it only meets.
mutual
  pub data Json : Type 0 where
    obj : Fields → Json
    arr : Items → Json
    str : Bytes → Json
    int : ℕ → Json
    bool : Bool → Json
    other : Json

  pub data Fields : Type 0 where
    end : Fields
    field : Bytes → Json → Fields → Fields

  pub data Items : Type 0 where
    nil : Items
    cons : Json → Items → Items

-- ZopfliFormat
pub data Format : Type 0 where
  gzip zlib deflate : Format

-- The libraries that the handlers call: Crypto++, the grammars under qi, the writer of
-- json_spirit, and zopfli.
pub record Libraries : Type 0 where
  pub crypto : Crypto
  pub grammars : Grammars
  pub write_json : Json → Bytes
  pub compress : Format → Bytes → Bytes

-- lexical_cast of an int, given by its bit pattern
unfoldable pub decimal_int : ℕ → Bytes
unfolding decimal
decimal_int n = if ltb n (2 ^ 31) then decimal n else b'-' ∷ decimal (2 ^ 32 - n)

abbrev pub header : Bytes → Bytes → Header
header n v = record { name = n; value = v }

-- `ifstream::read` into a buffer of 512 bytes until nothing is read; the first argument is fuel
unfoldable pub read_chunks : ℕ → Bytes → Bytes → Bytes
read_chunks zero rest out = out
read_chunks (suc f) [] out = out
read_chunks (suc f) (c ∷ cs) out = read_chunks f (drop 512 (c ∷ cs)) (out ++ take 512 (c ∷ cs))

-- Each round reads at least one byte, so the length is fuel enough.
unfoldable pub read_file : Bytes → Bytes
unfolding read_chunks
read_file content = read_chunks (length content) content []

-- `std::ifstream is(path.c_str())`
abbrev pub open_file : Disk → Bytes → Option Bytes
open_file d path = d.file (c_str path)

-- request_handler::get_header, which compares without case
unfoldable pub find_header : Bytes → List Header → Bytes
unfolding str_eq to_lower_copy
find_header lower_name [] = []
find_header lower_name (h ∷ hs) =
    if str_eq (to_lower_copy h.name) lower_name then h.value else find_header lower_name hs

unfoldable pub get_header : List Header → Bytes → Bytes
unfolding find_header
get_header headers name = find_header (to_lower_copy name) headers

abbrev pub blob_at : BlobIndex → Option ℕ → Option Blob
blob_at i none = none
blob_at i (some p) = get_elem? i.heap p

-- `bi_->get`, and the blob behind the pointer
unfoldable pub lookup : Bytes → BlobIndex → Option Blob
unfolding get
lookup hash i = blob_at i (get hash i)

-- handle_static
unfoldable pub static_path : Bytes → Bytes
unfolding ends_with
static_path request_path =
    if ends_with request_path b'/' then request_path ++ bytes "index.html" else request_path

unfoldable pub extension_of : Bytes → Bytes
unfolding find_last_of
extension_of path =
    let last_slash_pos = find_last_of path b'/' in
    let last_dot_pos = find_last_of path b'.' in
    if not (last_dot_pos == npos) && ltb last_slash_pos last_dot_pos
    then substr path (last_dot_pos + 1)
    else []

unfoldable pub handle_static : Config → Bytes → BlobIndex → Reply
unfolding static_path extension_of read_file stock_reply extension_to_type
handle_static config request_path i =
    let path = static_path request_path in
    elim (open_file i.disk (config.static_directory ++ path)) [
      | none ↦ stock_reply not_found
      | some file ↦ record {
        status = ok;
        headers =
            header (bytes "Content-Length") (decimal (length (read_file file)))
            ∷ header (bytes "Content-Type") (extension_to_type (extension_of path))
            ∷ [];
        content = read_file file;
      }
    ]

-- handle_check
unfoldable pub handle_check : Bytes → BlobIndex → Reply
unfolding lookup decimal_int stock_reply
handle_check request_path i = elim (lookup (substr request_path 1) i) [
  | none ↦ stock_reply not_found
  | some b ↦ record {
    status = ok;
    headers =
        header (bytes "Content-Length") (decimal_int b.size)
        ∷ header (bytes "Content-Type") (bytes "application/octet-stream")
        ∷ [];
    content = [];
  }
]

-- the format that the Accept-Encoding header asks for
unfoldable pub accepted_format : Bytes → Option Format
unfolding starts_with
accepted_format accept_encoding =
    if starts_with accept_encoding (bytes "gzip")
    then some gzip
    else if starts_with accept_encoding (bytes "deflate")
    then some deflate
    else if starts_with accept_encoding (bytes "zlib")
    then some zlib
    else none

abbrev pub encoding_name : Format → Bytes
encoding_name gzip = bytes "gzip"
encoding_name zlib = bytes "zlib"
encoding_name deflate = bytes "deflate"

unfoldable pub blob_reply : Libraries → Option Format → Bytes → Reply
unfolding read_file
blob_reply l format file =
    let content : Bytes = elim format [
      | none ↦ read_file file
      | some f ↦ l.compress f (read_file file)
    ] in
    let encoding : List Header = elim format [
      | none ↦ []
      | some f ↦ header (bytes "Content-Encoding") (encoding_name f) ∷ []
    ] in
    record {
      status = ok;
      headers =
          header (bytes "Content-Length") (decimal (length content))
          ∷ header (bytes "Content-Type") (bytes "application/octet-stream")
          ∷ encoding;
      content = content;
    }

-- handle_get
unfoldable pub handle_get : Libraries → Bytes → Request → BlobIndex → Reply
unfolding lookup accepted_format blob_reply get_header stock_reply
handle_get l request_path req i = elim (lookup (substr request_path 1) i) [
  | none ↦ stock_reply not_found
  | some b ↦ elim (open_file i.disk b.file_path) [
    | none ↦ stock_reply not_found
    | some file ↦
        blob_reply l (accepted_format (get_header req.headers (bytes "Accept-Encoding"))) file
  ]
]
