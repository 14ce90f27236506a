-- ===== src/Http.antt =====
-- The HTTP server of blobserver/src: requests and their parser, replies, the handler of requests,
-- and the connection that joins them.
pub mod Header
pub mod Request
pub mod RequestParser
pub mod Reply
pub mod MimeTypes
pub mod UrlDecode
pub mod Multipart
pub mod Grammars
pub mod RequestHandler
pub mod Connection
