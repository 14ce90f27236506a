-- ===== src/Http/Grammars/Query.antt =====
-- keys_and_values of blobserver/src/request.hpp: the pairs of a query.
use camlispp.Prelude.{ℕ, Bool, false, ◌||◌, ◌&&◌, List, [], ◌∷◌, Option, ◌==◌, leb}
use camlispp.StdString.{Bytes, bytes, str_lt, str_lt_irrefl, str_lt_trans, str_lt_total}
use camlispp.StdMap.{StrictOrder, insert}
use camlispp.Qi.{Qi, Parser, element, on_first, on_second, snoc, parse_with}
use camlispp.Http.Multipart.{Attributes}

-- the order of std::map<std::string, std::string>
instance abbrev pub bytes_order : StrictOrder Bytes
bytes_order = record {
  lt = str_lt;
  irrefl = str_lt_irrefl;
  trans = str_lt_trans;
  total = str_lt_total;
}

-- how a std::map takes a pair: a key that is there keeps its value
unfoldable pub add_pair : Attributes → Bytes × Bytes → Attributes
unfolding insert str_lt
add_pair m (k, v) = insert k v m

abbrev pub is_letter : ℕ → Bool
is_letter c = (leb b'a' c && leb c b'z') || (leb b'A' c && leb c b'Z')

abbrev pub is_number : ℕ → Bool
is_number c = leb b'0' c && leb c b'9'

abbrev pub is_any_of : List ℕ → ℕ → Bool
is_any_of [] c = false
is_any_of (x ∷ xs) c = x == c || is_any_of xs c

-- "a-zA-Z_"
abbrev pub is_key_start : ℕ → Bool
is_key_start c = is_letter c || c == b'_'

-- "a-zA-Z_0-9"
abbrev pub is_key_char : ℕ → Bool
is_key_char c = is_key_start c || is_number c

-- "/:_@a-zA-Z0-9.,+*!=-"
abbrev pub is_value_char : ℕ → Bool
is_value_char c = is_letter c || is_number c || is_any_of (bytes "/:_@.,+*!=-") c

module _ (qi : Qi) where
  open qi use {char_, lit, seq, alt, opt, kleene, plus}

  unfoldable pub query_key : Parser Bytes
  query_key =
      seq Bytes (element snoc 0 (char_ is_key_start)) (kleene ℕ Bytes snoc 0 (char_ is_key_char))

  unfoldable pub query_value : Parser Bytes
  query_value = plus ℕ Bytes snoc 0 (char_ is_value_char)

  unfoldable pub query_pair : Parser (Bytes × Bytes)
  unfolding query_key query_value
  query_pair =
      let P = Bytes × Bytes in
      seq P (on_first query_key) (opt P (seq P (lit P (b'=' ∷ [])) (on_second query_value)))

  -- a separator and a pair
  unfoldable pub next_pair : Parser (Bytes × Bytes)
  unfolding query_pair
  next_pair =
      let P = Bytes × Bytes in seq P (alt P (lit P (b';' ∷ [])) (lit P (b'&' ∷ []))) query_pair

  unfoldable pub query : Parser Attributes
  unfolding query_pair next_pair add_pair
  query =
      let P = Bytes × Bytes in
      seq Attributes (element add_pair ([], []) query_pair)
        (kleene P Attributes add_pair ([], []) next_pair)

  unfoldable pub parse_query : Bytes → Option Attributes
  unfolding query
  parse_query input = parse_with query [] input
