-- ===== src/Http/Grammars/Form.antt =====
-- header_tokens, chunks and chunk_tokens of blobserver/src/boost-multipart-form.h.
use camlispp.Prelude.{ℕ, Bool, ◌||◌, List, [], ◌∷◌, Option, ◌==◌, ltb}
use camlispp.StdString.{Bytes, bytes}
use camlispp.Qi.{Qi, Parser, element, on_first, on_second, snoc, unused, parse_with}
use camlispp.Http.Multipart.{Attributes}
use camlispp.Http.Grammars.Query.{add_pair}

-- ascii::char_
abbrev pub is_ascii : ℕ → Bool
is_ascii c = ltb c 128

module _ (qi : Qi) where
  open qi use {char_, lit, eol, seq, alt, opt, minus, kleene, plus}

  -- header_tokens
  unfoldable pub token_key : Parser Bytes
  token_key =
      plus ℕ Bytes snoc 0
        (minus ℕ (char_ is_ascii) (unused 0 (char_ (λ c. c == b'=' || c == b';'))))

  unfoldable pub quoted_value : Parser Bytes
  quoted_value =
      seq Bytes
        (seq Bytes (lit Bytes (b'"' ∷ []))
          (plus ℕ Bytes snoc 0 (minus ℕ (char_ is_ascii) (lit (Unit {0}) (b'"' ∷ [])))))
        (lit Bytes (b'"' ∷ []))

  unfoldable pub token_value : Parser Bytes
  unfolding quoted_value
  token_value = alt Bytes quoted_value (plus ℕ Bytes snoc 0 (char_ is_ascii))

  unfoldable pub token_pair : Parser (Bytes × Bytes)
  unfolding token_key token_value
  token_pair =
      let P = Bytes × Bytes in
      seq P (on_first token_key) (opt P (seq P (lit P (b'=' ∷ [])) (on_second token_value)))

  -- `*(" ")` is C++'s dereference of a string literal, the one character ' '
  unfoldable pub next_token_pair : Parser (Bytes × Bytes)
  unfolding token_pair
  next_token_pair =
      let P = Bytes × Bytes in seq P (seq P (lit P (b';' ∷ [])) (lit P (b' ' ∷ []))) token_pair

  unfoldable pub token_query : Parser Attributes
  unfolding token_pair next_token_pair add_pair
  token_query =
      seq Attributes
        (seq Attributes (element add_pair ([], []) token_pair)
          (kleene (Bytes × Bytes) Attributes add_pair ([], []) next_token_pair))
        (opt Attributes (eol Attributes))

  unfoldable pub parse_header_tokens : Bytes → Option Attributes
  unfolding token_query
  parse_header_tokens input = parse_with token_query [] input

  -- chunks, for a boundary
  unfoldable pub chunk_boundry : (A : Type 0) → Bytes → Parser A
  chunk_boundry A boundry = seq A (seq A (lit A (bytes "--")) (lit A boundry)) (eol A)

  unfoldable pub end_boundry : (A : Type 0) → Bytes → Parser A
  end_boundry A boundry =
      seq A (seq A (seq A (lit A (bytes "--")) (lit A boundry)) (lit A (bytes "--")))
        (opt A (eol A))

  -- a character of a chunk
  unfoldable pub chunk_char : Bytes → Parser ℕ
  unfolding chunk_boundry end_boundry
  chunk_char boundry =
      minus ℕ (minus ℕ (char_ is_ascii) (end_boundry (Unit {0}) boundry))
        (chunk_boundry (Unit {0}) boundry)

  unfoldable pub chunk : Bytes → Parser Bytes
  unfolding chunk_boundry chunk_char
  chunk boundry = seq Bytes (chunk_boundry Bytes boundry) (plus ℕ Bytes snoc 0 (chunk_char boundry))

  -- end_boundry has a text of its own, which is empty and becomes a last chunk
  unfoldable pub chunks_content : Bytes → Parser (List Bytes)
  unfolding chunk end_boundry
  chunks_content boundry =
      let L = List Bytes in
      seq L (seq L (element snoc [] (chunk boundry)) (kleene Bytes L snoc [] (chunk boundry)))
        (element snoc [] (end_boundry Bytes boundry))

  unfoldable pub parse_chunks : Bytes → Bytes → Option (List Bytes)
  unfolding chunks_content
  parse_chunks boundry input = parse_with (chunks_content boundry) [] input

  -- chunk_tokens
  unfoldable pub header_line : Parser Bytes
  header_line =
      seq Bytes (plus ℕ Bytes snoc 0 (minus ℕ (char_ is_ascii) (eol (Unit {0})))) (eol Bytes)

  unfoldable pub chunk_body : Parser Bytes
  chunk_body = plus ℕ Bytes snoc 0 (alt ℕ (char_ is_ascii) (eol ℕ))

  unfoldable pub chunk_content : Parser (List Bytes)
  unfolding header_line chunk_body
  chunk_content =
      let L = List Bytes in
      seq L (seq L (kleene Bytes L snoc [] header_line) (eol L)) (kleene Bytes L snoc [] chunk_body)

  unfoldable pub parse_chunk_tokens : Bytes → Option (List Bytes)
  unfolding chunk_content
  parse_chunk_tokens input = parse_with chunk_content [] input
