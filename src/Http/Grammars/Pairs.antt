-- ===== src/Http/Grammars/Pairs.antt =====
-- The pairs of a query that is written out are read back.
use camlispp.Prelude.{
  ℕ, ◌<◌, ◌≡◌, ◌≢◌, refl, ◌∙◌, Bool, true, false, [], ◌∷◌, ◌++◌, some, arith, length, length-append,
  All,
}
use camlispp.StdString.{Bytes, starts_with}
use camlispp.Qi.{Qi, matched, failed, element, on_first, on_second, snoc, parse_with}
use camlispp.Qi.Runs.{
  Fails, Takes, seq-matched, seq-failed, alt-failed, opt-matched, lit-matched, lit-failed,
  kleene-Takes, plus-Takes, element-matched, on_first-matched, on_second-matched,
}
use camlispp.Http.Multipart.{Attributes}
use camlispp.Http.Grammars.Query.{
  add_pair, is_key_start, is_key_char, is_value_char, query_key, query_value, query_pair, next_pair,
  query, parse_query,
}

-- The pairs of a query, joined by "&".
abbrev pub write_more : Attributes → Bytes
write_more [] = []
write_more ((k, v) ∷ ps) = b'&' ∷ (k ++ b'=' ∷ (v ++ write_more ps))

abbrev pub write_query : Bytes × Bytes → Attributes → Bytes
write_query (k, v) ps = k ++ b'=' ∷ (v ++ write_more ps)

abbrev pub IsIn : (ℕ → Bool) → ℕ → Type 0
IsIn set c = set c ≡ true

abbrev pub IsKey : Bytes → Type 0
IsKey [] = ⊥
IsKey (c ∷ cs) = (is_key_start c ≡ true) × All (IsIn is_key_char) cs

abbrev pub IsValue : Bytes → Type 0
IsValue v = (v ≢ []) × All (IsIn is_value_char) v

abbrev pub IsPair : Bytes × Bytes → Type 0
IsPair p = IsKey p.0 × IsValue p.1

-- The map that takes the pairs one after the other.
abbrev pub add_pairs : Attributes → Attributes → Attributes
add_pairs m [] = m
add_pairs m (p ∷ ps) = add_pairs (add_pair m p) ps

module _ (qi : Qi) where
  char-matched :
      (set : ℕ → Bool) (c : ℕ) (cs : Bytes) → set c ≡ true → qi.char_ set 0 (c ∷ cs) ≡ matched c cs
  char-matched set c cs h = qi.char_law set 0 (c ∷ cs) ∙ rw h refl

  char-Takes : (set : ℕ → Bool) (xs rest : Bytes) → All (IsIn set) xs → Takes (qi.char_ set) xs rest
  char-Takes set [] rest h = tt
  char-Takes set (c ∷ cs) rest h = (char-matched set c (cs ++ rest) h.0, char-Takes set cs rest h.1)

  char-Fails :
      (set : ℕ → Bool) (c : ℕ) (rest : Bytes) → set c ≡ false → Fails (qi.char_ set 0 (c ∷ rest))
  char-Fails set c rest h = (0, qi.char_law set 0 (c ∷ rest) ∙ rw h refl)

  value_end : (ps : Attributes) → Fails (qi.char_ is_value_char 0 (write_more ps))
  value_end [] = (0, qi.char_law is_value_char 0 [])
  value_end ((k, v) ∷ ps) = char-Fails is_value_char b'&' (k ++ b'=' ∷ (v ++ write_more ps)) refl

  query_key-matched :
      (k rest : Bytes) → IsKey k → query_key qi [] (k ++ b'=' ∷ rest) ≡ matched k (b'=' ∷ rest)
  unfolding query_key
  query_key-matched [] rest h = absurd h
  query_key-matched (c ∷ cs) rest h =
      let start = qi.char_ is_key_start in
      let more = qi.kleene ℕ Bytes snoc 0 (qi.char_ is_key_char) in
      seq-matched qi (element snoc 0 start) more [] (c ∷ []) (c ∷ (cs ++ b'=' ∷ rest))
        (cs ++ b'=' ∷ rest)
        (element-matched qi snoc 0 start [] (c ∷ (cs ++ b'=' ∷ rest)) c (cs ++ b'=' ∷ rest)
          (char-matched is_key_start c _ h.0))
      ∙ kleene-Takes qi (qi.char_ is_key_char) (c ∷ []) cs (b'=' ∷ rest)
          (char-Takes is_key_char cs (b'=' ∷ rest) h.1) (char-Fails is_key_char b'=' rest refl)

  query_value-matched :
      (v : Bytes) (ps : Attributes)
      → IsValue v
      → query_value qi [] (v ++ write_more ps) ≡ matched v (write_more ps)
  unfolding query_value
  query_value-matched [] ps h = absurd (h.0 refl)
  query_value-matched (c ∷ cs) ps h =
      plus-Takes qi (qi.char_ is_value_char) [] c cs (write_more ps)
        (char-Takes is_value_char (c ∷ cs) (write_more ps) h.1) (value_end ps)

  query_pair-matched :
      (k v : Bytes) (ps : Attributes)
      → IsPair (k, v)
      → query_pair qi ([], []) (write_query (k, v) ps) ≡ matched (k, v) (write_more ps)
  unfolding query_pair starts_with
  query_pair-matched k v ps h =
      let P = Bytes × Bytes in
      let rest = v ++ write_more ps in
      let tail = qi.seq P (qi.lit P (b'=' ∷ [])) (on_second (query_value qi)) in
      seq-matched qi (on_first (query_key qi)) (qi.opt P tail) ([], []) (k, []) (k ++ b'=' ∷ rest)
        (b'=' ∷ rest)
        (on_first-matched qi (query_key qi) [] k [] _ (b'=' ∷ rest) (query_key-matched k rest h.0))
      ∙ opt-matched qi tail (k, []) (k, v) (b'=' ∷ rest) (write_more ps)
          (seq-matched qi (qi.lit P (b'=' ∷ [])) (on_second (query_value qi)) (k, []) (k, [])
              (b'=' ∷ rest) rest (lit-matched qi P (b'=' ∷ []) (k, []) (b'=' ∷ rest) refl)
            ∙ on_second-matched qi (query_value qi) k [] v rest (write_more ps)
                (query_value-matched v ps h.1))

  separator-matched :
      (a : Bytes × Bytes) (rest : Bytes)
      → qi.alt
          (Bytes × Bytes)
          (qi.lit (Bytes × Bytes) (b';' ∷ []))
          (qi.lit (Bytes × Bytes) (b'&' ∷ []))
          a
          (b'&' ∷ rest)
        ≡ matched a rest
  unfolding starts_with
  separator-matched a rest =
      let P = Bytes × Bytes in
      alt-failed qi (qi.lit P (b';' ∷ [])) (qi.lit P (b'&' ∷ [])) a a (b'&' ∷ rest)
        (lit-failed qi P (b';' ∷ []) a (b'&' ∷ rest) refl)
      ∙ lit-matched qi P (b'&' ∷ []) a (b'&' ∷ rest) refl

  next_pair-matched :
      (k v : Bytes) (ps : Attributes)
      → IsPair (k, v)
      → next_pair qi ([], []) (write_more ((k, v) ∷ ps)) ≡ matched (k, v) (write_more ps)
  unfolding next_pair
  next_pair-matched k v ps h =
      seq-matched qi _ (query_pair qi) ([], []) ([], []) (write_more ((k, v) ∷ ps))
        (write_query (k, v) ps) (separator-matched ([], []) (write_query (k, v) ps))
      ∙ query_pair-matched k v ps h

  next_pair-failed : next_pair qi ([], []) [] ≡ failed ([], [])
  unfolding next_pair starts_with
  next_pair-failed =
      let P = Bytes × Bytes in
      let a : P = ([], []) in
      seq-failed qi (qi.alt P (qi.lit P (b';' ∷ [])) (qi.lit P (b'&' ∷ []))) (query_pair qi) a a []
        (alt-failed qi (qi.lit P (b';' ∷ [])) (qi.lit P (b'&' ∷ [])) a a []
            (lit-failed qi P (b';' ∷ []) a [] refl)
          ∙ lit-failed qi P (b'&' ∷ []) a [] refl)

  write_more-length :
      (k v : Bytes) (ps : Attributes) → length (write_more ps) < length (write_more ((k, v) ∷ ps))
  write_more-length k v ps =
      omega (arith, length-append k (b'=' ∷ (v ++ write_more ps)), length-append v (write_more ps))

  kleene-pairs :
      (m ps : Attributes)
      → All IsPair ps
      → qi.kleene (Bytes × Bytes) Attributes add_pair ([], []) (next_pair qi) m (write_more ps)
        ≡ matched (add_pairs m ps) []
  kleene-pairs m [] h =
      qi.kleene_end (Bytes × Bytes) Attributes add_pair ([], []) (next_pair qi) m [] ([], [])
        next_pair-failed
  kleene-pairs m ((k, v) ∷ ps) h =
      qi.kleene_more (Bytes × Bytes) Attributes add_pair ([], []) (next_pair qi) m
        (write_more ((k, v) ∷ ps)) (k, v) (write_more ps) (next_pair-matched k v ps h.0)
        (write_more-length k v ps)
      ∙ kleene-pairs (add_pair m (k, v)) ps h.1

-- A query that is written out is read back as the map that takes its pairs one after the other, and
-- keeps the first of two with one key. The keys and the values must have the characters of the
-- grammar, at least one.
pub parse_query-write_query :
    (qi : Qi) (p : Bytes × Bytes) (ps : Attributes)
    → All IsPair (p ∷ ps)
    → parse_query qi (write_query p ps) ≡ some (add_pairs [] (p ∷ ps))
unfolding parse_query query
parse_query-write_query qi (k, v) ps h =
    let P = Bytes × Bytes in
    let first = element add_pair ([], []) (query_pair qi) in
    let loop = qi.kleene P Attributes add_pair ([], []) (next_pair qi) in
    let one : Attributes = add_pair [] (k, v) in
    let a =
      element-matched qi add_pair ([], []) (query_pair qi) [] (write_query (k, v) ps) (k, v)
        (write_more ps) (query_pair-matched qi k v ps h.0) in
    let all =
      seq-matched qi first loop [] one (write_query (k, v) ps) (write_more ps) a
      ∙ kleene-pairs qi one ps h.1 in
    rw (all, parse_with) refl
