-- ===== src/Lib.antt =====
-- A verification library of blobserver, a content-addressed store of blobs with an HTTP server
-- (blobserver/src of this repository).
--
-- The program. A connection (connection.cpp) feeds what it reads to a request parser
-- (request_parser.cpp); a finished request goes to the request handler (request_handler.cpp), which
-- decodes the path and calls one of six handlers; these read and change the blob index
-- (BlobIndex.cpp), which maps keys (BlobKey.cpp) to blobs (Blob.cpp) and writes their files, named
-- by digests (Hash.cpp). A thread (Sync.cpp) fetches from and sends to other servers of the kind.
-- main (blobserver.cpp) makes the settings of its options and runs the server (server.cpp), which
-- accepts the connections.
--
-- The files, by the code that they are about:
--   * BlobKey, BlobKey/*: blobserver/src/BlobKey.cpp and .hpp; Blob, Blob/*: Blob.cpp and .hpp.
--   * Config: Config.cpp and .hpp; Hash: Hash.cpp and .hpp.
--   * BlobIndex, BlobIndex/*: BlobIndex.cpp and .hpp. Defs has the state (heap of blobs, map of keys
--     to addresses, disk) and the operations under the names of the methods; add_blob_as is the
--     add_blob with three arguments. Spec has the result of add_blob with its loops run.
--     Store has the contract of the index, a store of contents by key, and Store/* the refinement.
--   * Http/Header, Http/Request: header.cpp, request.hpp; Http/RequestParser, Http/RequestParser/*:
--     request_parser.cpp and .hpp, one step function for each case of the switch in consume.
--   * Http/Reply: reply.cpp; Http/MimeTypes: mime_types.cpp; Http/Multipart:
--     boost-multipart-form.cpp and .h.
--   * Http/RequestHandler, Http/RequestHandler/*, Http/UrlDecode, Http/UrlDecode/*:
--     request_handler.cpp. A handler takes the index and returns a reply; handle_put and
--     handle_request return the index after them too.
--   * Http/Connection, Http/Connection/*: connection.cpp, its two handlers as steps on events.
--   * Qi, Qi/*: boost::spirit::qi as an interface, a parser type and combinators with a law for each.
--     Http/Grammars, Http/Grammars/*: the grammars of request.hpp (Query) and boost-multipart-form.h
--     (Form) over that interface, and forms and queries as a client writes them.
--   * Http/RequestHandler/Store, Http/RequestHandler/Store/*: the contract of the server.
--   * Server, Server/*: server.cpp, with the handlers of all connections as steps on one state. A
--     shared_ptr of a connection is an address of a heap.
--   * Main, Main/*: blobserver.cpp, what main makes of its options, and the server that it runs.
--   * Sync, Sync/*: Sync.cpp and .hpp. Exchange and Getting have the two loops against
--     a server of this program, Following a client that reads its enumeration page by page.
--   * StdString, StdMap: what the program uses of std::string, boost's string algorithms, and
--     std::map. Prelude: names of the library, tests on numbers, lists. Tests: concrete inputs.
--
-- Bounds and fuel. A byte is a number, a text a list of bytes. size_t has 64 bits, unsigned and int
-- 32; an int is the pattern of its bits, and arithmetic on it is reduced by 2 ^ 32. Positions kept
-- in an unsigned are cut to 32 bits before they are compared with npos. Lengths are not bounded by
-- the memory. atoi clamps to a long of 64 bits and takes its low 32 bits, as glibc does. A file is
-- read in chunks of 512 bytes with its length as fuel, and each chunk takes at least one byte. The
-- two loops of sync_host have fuel and say whether they ended, since the first ends only if the
-- other server lets it. Following an enumeration has fuel, and one more than the entries is enough.
--
-- Parameters. The digests of Crypto++ with their hex text, the parsers of boost::spirit::qi (with the
-- laws of the interface), the writer and the reader of json_spirit, the compressor of zopfli, the
-- options that boost::program_options reads, and what curl makes of a call. The handlers take the
-- results of the four grammars as a record, which the grammars over qi fill.
--
-- Not modelled. The resolver and the acceptor of boost::asio, and what runs at the same time: the
-- handlers run one at a time here, in any order. The program has two threads by default; the mutex
-- of the index orders its operations, but for paginate, which takes none, so an enumeration beside
-- an upload is a data race that is left out. The thread of Sync beside the server, the saved index
-- (it is written before the server runs, and never read), logging and the dump functions, and the
-- copies of libraries under 3rd. The buffers of a reply are taken by the content that they are
-- made from: in the program those of a header's name and value refer to temporaries. Exceptions of
-- the memory and of the file system are left out: a directory that cannot be made is taken as
-- made, and a write that cannot be made is skipped. The build is the default one, with
-- ENABLE_STATIC and without ENABLE_DUMP and ENABLE_DEBUG_LOAD.
mod Prelude
mod Tests
pub mod StdString
pub mod StdMap
pub mod Qi
pub mod BlobKey
pub mod Blob
pub mod Config
pub mod Hash
pub mod BlobIndex
pub mod Http
pub mod Server
pub mod Main
pub mod Sync
