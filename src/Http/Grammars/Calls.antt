-- ===== src/Http/Grammars/Calls.antt =====
-- The four calls of qi::parse.
use camlispp.Qi.{Qi}
use camlispp.Http.Multipart.{Grammars}
use camlispp.Http.Grammars.Query.{parse_query}
use camlispp.Http.Grammars.Form.{parse_header_tokens, parse_chunks, parse_chunk_tokens}

abbrev pub qi_grammars : Qi → Grammars
qi_grammars qi = record {
  keys_and_values = parse_query qi;
  header_tokens = parse_header_tokens qi;
  chunks = parse_chunks qi;
  chunk_tokens = parse_chunk_tokens qi;
}
