-- ===== src/Http/Reply.antt =====
-- blobserver/src/reply.cpp and reply.hpp: a reply, the stock replies, and the bytes that are sent.
use camlispp.Prelude.{List, [], ◌∷◌, ◌++◌, length}
use camlispp.StdString.{Bytes, bytes, decimal}
use camlispp.Http.Header.{Header}

-- reply::status_type
pub data Status : Type 0 where
  ok created accepted no_content multiple_choices moved_permanently : Status
  moved_temporarily not_modified bad_request unauthorized forbidden not_found : Status
  internal_server_error not_implemented bad_gateway service_unavailable : Status

pub record Reply : Type 0 where
  pub status : Status
  pub headers : List Header
  pub content : Bytes

-- the status line without its end
abbrev pub status_text : Status → Bytes
status_text ok = bytes "HTTP/1.0 200 OK"
status_text created = bytes "HTTP/1.0 201 Created"
status_text accepted = bytes "HTTP/1.0 202 Accepted"
status_text no_content = bytes "HTTP/1.0 204 No Content"
status_text multiple_choices = bytes "HTTP/1.0 300 Multiple Choices"
status_text moved_permanently = bytes "HTTP/1.0 301 Moved Permanently"
status_text moved_temporarily = bytes "HTTP/1.0 302 Moved Temporarily"
status_text not_modified = bytes "HTTP/1.0 304 Not Modified"
status_text bad_request = bytes "HTTP/1.0 400 Bad Request"
status_text unauthorized = bytes "HTTP/1.0 401 Unauthorized"
status_text forbidden = bytes "HTTP/1.0 403 Forbidden"
status_text not_found = bytes "HTTP/1.0 404 Not Found"
status_text internal_server_error = bytes "HTTP/1.0 500 Internal Server Error"
status_text not_implemented = bytes "HTTP/1.0 501 Not Implemented"
status_text bad_gateway = bytes "HTTP/1.0 502 Bad Gateway"
status_text service_unavailable = bytes "HTTP/1.0 503 Service Unavailable"

abbrev pub crlf : Bytes
crlf = b'\r' ∷ b'\n' ∷ []

-- status_strings::to_buffer
unfoldable pub status_line : Status → Bytes
status_line s = status_text s ++ crlf

-- the buffers of the headers, in to_buffers
unfoldable pub header_buffers : List Header → List Bytes
header_buffers [] = []
header_buffers (h ∷ hs) = h.name ∷ (b':' ∷ b' ' ∷ []) ∷ h.value ∷ crlf ∷ header_buffers hs

unfoldable pub to_buffers : Reply → List Bytes
unfolding status_line header_buffers
to_buffers rep = status_line rep.status ∷ (header_buffers rep.headers ++ (crlf ∷ rep.content ∷ []))

-- what stands between the title and the heading of a stock reply
abbrev page : Bytes → Bytes → Bytes
page title heading =
    bytes "<html><head><title>"
    ++ (title ++ (bytes "</title></head><body><h1>" ++ (heading ++ bytes "</h1></body></html>")))

-- stock_replies::to_string
unfoldable pub stock_content : Status → Bytes
stock_content ok = []
stock_content created = page (bytes "Created") (bytes "201 Created")
stock_content accepted = page (bytes "Accepted") (bytes "202 Accepted")
stock_content no_content = page (bytes "No Content") (bytes "204 Content")
stock_content multiple_choices = page (bytes "Multiple Choices") (bytes "300 Multiple Choices")
stock_content moved_permanently = page (bytes "Moved Permanently") (bytes "301 Moved Permanently")
stock_content moved_temporarily = page (bytes "Moved Temporarily") (bytes "302 Moved Temporarily")
stock_content not_modified = page (bytes "Not Modified") (bytes "304 Not Modified")
stock_content bad_request = page (bytes "Bad Request") (bytes "400 Bad Request")
stock_content unauthorized = page (bytes "Unauthorized") (bytes "401 Unauthorized")
stock_content forbidden = page (bytes "Forbidden") (bytes "403 Forbidden")
stock_content not_found = page (bytes "Not Found") (bytes "404 Not Found")
stock_content internal_server_error =
    page (bytes "Internal Server Error") (bytes "500 Internal Server Error")
stock_content not_implemented = page (bytes "Not Implemented") (bytes "501 Not Implemented")
stock_content bad_gateway = page (bytes "Bad Gateway") (bytes "502 Bad Gateway")
stock_content service_unavailable =
    page (bytes "Service Unavailable") (bytes "503 Service Unavailable")

-- reply::stock_reply
unfoldable pub stock_reply : Status → Reply
unfolding stock_content decimal
stock_reply s = record {
  status = s;
  headers =
      record { name = bytes "Content-Length"; value = decimal (length (stock_content s)) }
      ∷ record { name = bytes "Content-Type"; value = bytes "text/html" }
      ∷ [];
  content = stock_content s;
}
