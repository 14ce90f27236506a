-- ===== src/Http/Grammars/Attributes.antt =====
-- The boundary that the Content-Type of a posted form gives is read back, if one space is in front of it.
use camlispp.Prelude.{
  ℕ, ◌<◌, ◌≡◌, ◌≢◌, refl, sym, ap, ◌∙◌, true, false, ◌||◌, [], ◌∷◌, ◌++◌, some, arith, append-nil,
  All, ◌==◌,
}
use camlispp.StdString.{Bytes, bytes, starts_with, str_lt}
use camlispp.Qi.{
  Qi, Parser, matched, failed, element, on_first, on_second, unused, snoc, parse_with, one_eol,
}
use camlispp.Qi.Runs.{
  Fails, Takes, seq-matched, seq-failed, alt-failed, opt-failed, lit-failed, on_first-matched,
  on_second-matched, opt-matched, lit-matched, minus-matched, minus-Fails, plus-Takes,
  element-matched,
}
use camlispp.Http.Multipart.{Attributes}
use camlispp.Http.Grammars.Query.{add_pair}
use camlispp.Http.Grammars.Form.{
  is_ascii, token_key, quoted_value, token_value, token_pair, next_token_pair, token_query,
  parse_header_tokens,
}

-- A character of a key.
abbrev IsKeyChar : ℕ → Type 0
IsKeyChar c = (c < 128) × (c ≢ b'=') × (c ≢ b';')

-- A boundary that is written without quotes.
abbrev pub IsBoundary : Bytes → Type 0
IsBoundary [] = ⊥
IsBoundary (c ∷ cs) = (c ≢ b'"') × All (λ x. x < 128) (c ∷ cs)

-- The Content-Type of a form.
abbrev pub form_type : Bytes → Bytes
form_type boundry = bytes "multipart/form-data; boundary=" ++ boundry

module _ (qi : Qi) where
  abbrev stop_char : Parser ℕ
  stop_char = qi.char_ (λ c. c == b'=' || c == b';')

  abbrev key_char : Parser ℕ
  key_char = qi.minus ℕ (qi.char_ is_ascii) (unused 0 stop_char)

  unused-Fails : (p : Parser ℕ) (s : Bytes) → Fails (p 0 s) → Fails (unused 0 p tt s)
  unused-Fails p s (a, e) = (tt, rw (e, unused) refl)

  key_char-matched : (c : ℕ) (cs : Bytes) → IsKeyChar c → key_char 0 (c ∷ cs) ≡ matched c cs
  key_char-matched c cs h =
      let stop : Fails (stop_char 0 (c ∷ cs)) = (0, qi.char_law _ 0 (c ∷ cs) ∙ ground arith) in
      minus-matched qi (qi.char_ is_ascii) (unused 0 stop_char) 0 (c ∷ cs)
        (unused-Fails stop_char (c ∷ cs) stop)
      ∙ qi.char_law is_ascii 0 (c ∷ cs)
      ∙ ground arith

  key_char-Takes : (key rest : Bytes) → All IsKeyChar key → Takes key_char key rest
  key_char-Takes [] rest h = tt
  key_char-Takes (c ∷ cs) rest h = (key_char-matched c (cs ++ rest) h.0, key_char-Takes cs rest h.1)

  key_char-Fails :
      (c : ℕ) (rest : Bytes) → (c == b'=' || c == b';') ≡ true → Fails (key_char 0 (c ∷ rest))
  key_char-Fails c rest h =
      let stop : stop_char 0 (c ∷ rest) ≡ matched c rest = qi.char_law _ 0 (c ∷ rest) ∙ rw h refl in
      minus-Fails qi (qi.char_ is_ascii) (unused 0 stop_char) 0 (c ∷ rest) tt rest
        (rw (stop, unused) refl)

  token_key-matched :
      (k : ℕ) (key : Bytes) (c : ℕ) (rest : Bytes)
      → All IsKeyChar (k ∷ key)
      → (c == b'=' || c == b';') ≡ true
      → token_key qi [] (k ∷ (key ++ c ∷ rest)) ≡ matched (k ∷ key) (c ∷ rest)
  unfolding token_key
  token_key-matched k key c rest h stop =
      plus-Takes qi key_char [] k key (c ∷ rest) (key_char-Takes (k ∷ key) (c ∷ rest) h)
        (key_char-Fails c rest stop)

  ascii-Takes : (s : Bytes) → All (λ x. x < 128) s → Takes (qi.char_ is_ascii) s []
  ascii-Takes [] h = tt
  ascii-Takes (c ∷ cs) h =
      (qi.char_law is_ascii 0 (c ∷ (cs ++ [])) ∙ ground arith, ascii-Takes cs h.1)

  quoted_value-failed : (c : ℕ) (cs : Bytes) → c ≢ b'"' → quoted_value qi [] (c ∷ cs) ≡ failed []
  unfolding quoted_value starts_with
  quoted_value-failed c cs h =
      let quote = qi.lit Bytes (b'"' ∷ []) in
      let inside =
        qi.plus ℕ Bytes snoc 0 (qi.minus ℕ (qi.char_ is_ascii) (qi.lit (Unit {0}) (b'"' ∷ []))) in
      seq-failed qi (qi.seq Bytes quote inside) quote [] [] (c ∷ cs) (
        seq-failed qi quote inside [] [] (c ∷ cs)
          (lit-failed qi Bytes (b'"' ∷ []) [] (c ∷ cs) (ground arith)))

  token_value-matched : (s : Bytes) → IsBoundary s → token_value qi [] s ≡ matched s []
  unfolding token_value
  token_value-matched [] h = absurd h
  token_value-matched (c ∷ cs) h =
      let plain = qi.plus ℕ Bytes snoc 0 (qi.char_ is_ascii) in
      alt-failed qi (quoted_value qi) plain [] [] (c ∷ cs) (quoted_value-failed c cs h.0)
      ∙ ap (λ (t : Bytes). plain [] (c ∷ t)) (sym (append-nil cs))
      ∙ plus-Takes qi (qi.char_ is_ascii) [] c cs [] (ascii-Takes (c ∷ cs) h.1)
          (0, qi.char_law is_ascii 0 [])
      ∙ ap (λ (t : Bytes). matched t []) refl

  token_pair-key :
      (k : ℕ) (key : Bytes) (rest : Bytes)
      → All IsKeyChar (k ∷ key)
      → token_pair qi ([], []) (k ∷ (key ++ b';' ∷ rest)) ≡ matched (k ∷ key, []) (b';' ∷ rest)
  unfolding token_pair starts_with
  token_pair-key k key rest h =
      let P = Bytes × Bytes in
      let value = qi.seq P (qi.lit P (b'=' ∷ [])) (on_second (token_value qi)) in
      seq-matched qi (on_first (token_key qi)) (qi.opt P value) ([], []) (k ∷ key, []) _
        (b';' ∷ rest)
        (on_first-matched qi (token_key qi) [] (k ∷ key) [] _ (b';' ∷ rest)
          (token_key-matched k key b';' rest h refl))
      ∙ opt-failed qi value (k ∷ key, []) (k ∷ key, []) (b';' ∷ rest)
          (seq-failed qi (qi.lit P (b'=' ∷ [])) (on_second (token_value qi)) (k ∷ key, [])
            (k ∷ key, []) (b';' ∷ rest)
            (lit-failed qi P (b'=' ∷ []) (k ∷ key, []) (b';' ∷ rest) refl))

  token_pair-value :
      (k : ℕ) (key value : Bytes)
      → All IsKeyChar (k ∷ key)
      → IsBoundary value
      → token_pair qi ([], []) (k ∷ (key ++ b'=' ∷ value)) ≡ matched (k ∷ key, value) []
  unfolding token_pair starts_with
  token_pair-value k key value h b =
      let P = Bytes × Bytes in
      let tail = qi.seq P (qi.lit P (b'=' ∷ [])) (on_second (token_value qi)) in
      seq-matched qi (on_first (token_key qi)) (qi.opt P tail) ([], []) (k ∷ key, []) _
        (b'=' ∷ value)
        (on_first-matched qi (token_key qi) [] (k ∷ key) [] _ (b'=' ∷ value)
          (token_key-matched k key b'=' value h refl))
      ∙ opt-matched qi tail (k ∷ key, []) (k ∷ key, value) (b'=' ∷ value) []
          (seq-matched qi (qi.lit P (b'=' ∷ [])) (on_second (token_value qi)) (k ∷ key, [])
              (k ∷ key, []) (b'=' ∷ value) value
              (lit-matched qi P (b'=' ∷ []) (k ∷ key, []) (b'=' ∷ value) refl)
            ∙ on_second-matched qi (token_value qi) (k ∷ key) [] value value []
                (token_value-matched value b))

  -- behind a semicolon, one space, and then the pair
  next_token_pair-value :
      (k : ℕ) (key value : Bytes)
      → All IsKeyChar (k ∷ key)
      → IsBoundary value
      → next_token_pair qi ([], []) (b';' ∷ b' ' ∷ k ∷ (key ++ b'=' ∷ value))
        ≡ matched (k ∷ key, value) []
  unfolding next_token_pair starts_with
  next_token_pair-value k key value h b =
      let P = Bytes × Bytes in
      let semicolon = qi.lit P (b';' ∷ []) in
      let space = qi.lit P (b' ' ∷ []) in
      let after = k ∷ (key ++ b'=' ∷ value) in
      seq-matched qi (qi.seq P semicolon space) (token_pair qi) ([], []) ([], [])
        (b';' ∷ b' ' ∷ after) after
        (seq-matched qi semicolon space ([], []) ([], []) (b';' ∷ b' ' ∷ after) (b' ' ∷ after)
            (lit-matched qi P (b';' ∷ []) ([], []) (b';' ∷ b' ' ∷ after) refl)
          ∙ lit-matched qi P (b' ' ∷ []) ([], []) (b' ' ∷ after) refl)
      ∙ token_pair-value k key value h b

  next_token_pair-failed : (a : Bytes × Bytes) → next_token_pair qi a [] ≡ failed a
  unfolding next_token_pair starts_with
  next_token_pair-failed a =
      let P = Bytes × Bytes in
      let semicolon = qi.lit P (b';' ∷ []) in
      let space = qi.lit P (b' ' ∷ []) in
      seq-failed qi (qi.seq P semicolon space) (token_pair qi) a a []
        (seq-failed qi semicolon space a a [] (lit-failed qi P (b';' ∷ []) a [] refl))

  -- behind a semicolon, no space
  next_token_pair_no_space :
      (a : Bytes × Bytes) (after : Bytes)
      → starts_with after (b' ' ∷ []) ≡ false
      → next_token_pair qi a (b';' ∷ after) ≡ failed a
  unfolding next_token_pair starts_with
  next_token_pair_no_space a after h =
      let P = Bytes × Bytes in
      let semicolon = qi.lit P (b';' ∷ []) in
      let space = qi.lit P (b' ' ∷ []) in
      seq-failed qi (qi.seq P semicolon space) (token_pair qi) a a (b';' ∷ after) (
        seq-matched qi semicolon space a a (b';' ∷ after) after
          (lit-matched qi P (b';' ∷ []) a (b';' ∷ after) refl)
        ∙ lit-failed qi P (b' ' ∷ []) a after h)

one_eol-failed : {A : Type 0} (a : A) (after : Bytes) → one_eol a (b';' ∷ after) ≡ failed a
one_eol-failed a [] = refl
one_eol-failed a (c ∷ cs) = refl

-- A Content-Type whose semicolon is not followed by a space is read up to the semicolon.
pub parse_header_tokens_no_space :
    (qi : Qi) (after : Bytes)
    → starts_with after (b' ' ∷ []) ≡ false
    → parse_header_tokens qi (bytes "multipart/form-data;" ++ after)
      ≡ some ((bytes "multipart/form-data", []) ∷ [])
unfolding parse_header_tokens token_query add_pair
parse_header_tokens_no_space qi after h =
    let P = Bytes × Bytes in
    let input = bytes "multipart/form-data;" ++ after in
    let one : Attributes = (bytes "multipart/form-data", []) ∷ [] in
    let first = element add_pair ([], []) (token_pair qi) in
    let loop = qi.kleene P Attributes add_pair ([], []) (next_token_pair qi) in
    let a =
      element-matched qi add_pair ([], []) (token_pair qi) [] input
        (bytes "multipart/form-data", []) (b';' ∷ after)
        (token_pair-key qi b'm' (bytes "ultipart/form-data") after (omega arith)) in
    let c =
      qi.kleene_end P Attributes add_pair ([], []) (next_token_pair qi) one (b';' ∷ after) ([], [])
        (next_token_pair_no_space qi ([], []) after h) in
    let d = seq-matched qi first loop [] one input (b';' ∷ after) a ∙ c in
    let all =
      seq-matched qi (qi.seq Attributes first loop) (qi.opt Attributes (qi.eol Attributes)) [] one
        input (b';' ∷ after) d
      ∙ opt-failed qi (qi.eol Attributes) one one (b';' ∷ after)
          (qi.eol_law Attributes one (b';' ∷ after) ∙ one_eol-failed one after) in
    rw (all, parse_with) refl

-- The Content-Type of a form with a boundary is read as a map that has the boundary. It must be
-- ASCII, have a character, and not start with a quote.
pub parse_header_tokens-form_type :
    (qi : Qi) (boundry : Bytes)
    → IsBoundary boundry
    → parse_header_tokens qi (form_type boundry)
      ≡ some ((bytes "boundary", boundry) ∷ (bytes "multipart/form-data", []) ∷ [])
unfolding parse_header_tokens token_query add_pair str_lt
parse_header_tokens-form_type qi boundry b =
    let P = Bytes × Bytes in
    let input = form_type boundry in
    let rest = bytes "; boundary=" ++ boundry in
    let one : Attributes = (bytes "multipart/form-data", []) ∷ [] in
    let both : Attributes = (bytes "boundary", boundry) ∷ (bytes "multipart/form-data", []) ∷ [] in
    let first = element add_pair ([], []) (token_pair qi) in
    let loop = qi.kleene P Attributes add_pair ([], []) (next_token_pair qi) in
    let a =
      element-matched qi add_pair ([], []) (token_pair qi) [] input
        (bytes "multipart/form-data", []) rest
        (token_pair-key qi b'm' (bytes "ultipart/form-data") (bytes " boundary=" ++ boundry)
          (omega arith)) in
    let c =
      qi.kleene_more P Attributes add_pair ([], []) (next_token_pair qi) one rest
        (bytes "boundary", boundry) []
        (next_token_pair-value qi b'b' (bytes "oundary") boundry (omega arith) b) (omega arith)
      ∙ qi.kleene_end P Attributes add_pair ([], []) (next_token_pair qi) both [] ([], [])
          (next_token_pair-failed qi ([], [])) in
    let d = seq-matched qi first loop [] one input rest a ∙ c in
    let all =
      seq-matched qi (qi.seq Attributes first loop) (qi.opt Attributes (qi.eol Attributes)) [] both
        input [] d
      ∙ opt-failed qi (qi.eol Attributes) both both [] (qi.eol_law Attributes both []) in
    rw (all, parse_with) refl
