-- ===== src/Http/Grammars/Pieces.antt =====
-- The header lines and the body of a chunk that is written out are read back.
use camlispp.Prelude.{
  ℕ, ◌<◌, ◌≡◌, ◌≢◌, refl, sym, ap, ◌∙◌, List, [], ◌∷◌, ◌++◌, some, none, arith, length-append,
  append_assoc, append-nil, All,
}
use camlispp.StdString.{Bytes}
use camlispp.Qi.{Qi, Parser, Match, matched, snoc, or_else, parse_with}
use camlispp.Qi.Runs.{
  Fails, Takes, seq-matched, seq-failed, seq-Fails, minus-matched, minus-Fails, plus-Takes,
  plus-Fails,
}
use camlispp.Http.Grammars.Form.{
  is_ascii, header_line, chunk_body, chunk_content, parse_chunk_tokens,
}

-- Header lines, an empty line, and the body.
abbrev pub write_piece : List Bytes → Bytes → Bytes
write_piece [] body = b'\r' ∷ b'\n' ∷ body
write_piece (line ∷ lines) body = line ++ (b'\r' ∷ b'\n' ∷ write_piece lines body)

-- A character of a line.
abbrev pub IsLineChar : ℕ → Type 0
IsLineChar c = (c < 128) × (c ≢ b'\r') × (c ≢ b'\n')

abbrev pub IsLine : Bytes → Type 0
IsLine line = (line ≢ []) × All IsLineChar line

module _ (qi : Qi) where
  abbrev line_char : Parser ℕ
  line_char = qi.minus ℕ (qi.char_ is_ascii) (qi.eol (Unit {0}))

  eol-Fails :
      (u : Unit {0}) (c : ℕ) (cs : Bytes) → IsLineChar c → Fails (qi.eol (Unit {0}) u (c ∷ cs))
  eol-Fails u c [] h = (u, qi.eol_law (Unit {0}) u (c ∷ []) ∙ ground arith)
  eol-Fails u c (d ∷ cs) h = (u, qi.eol_law (Unit {0}) u (c ∷ d ∷ cs) ∙ ground arith)

  line_char-matched : (c : ℕ) (cs : Bytes) → IsLineChar c → line_char 0 (c ∷ cs) ≡ matched c cs
  line_char-matched c cs h =
      minus-matched qi (qi.char_ is_ascii) (qi.eol (Unit {0})) 0 (c ∷ cs) (eol-Fails tt c cs h)
      ∙ qi.char_law is_ascii 0 (c ∷ cs)
      ∙ ground arith

  line_char-Fails : (rest : Bytes) → Fails (line_char 0 (b'\r' ∷ b'\n' ∷ rest))
  line_char-Fails rest =
      minus-Fails qi (qi.char_ is_ascii) (qi.eol (Unit {0})) 0 (b'\r' ∷ b'\n' ∷ rest) tt rest
        (qi.eol_law (Unit {0}) tt (b'\r' ∷ b'\n' ∷ rest))

  line_char-Takes : (line rest : Bytes) → All IsLineChar line → Takes line_char line rest
  line_char-Takes [] rest h = tt
  line_char-Takes (c ∷ cs) rest h =
      (line_char-matched c (cs ++ rest) h.0, line_char-Takes cs rest h.1)

  header_line-matched :
      (line rest : Bytes)
      → IsLine line
      → header_line qi [] (line ++ (b'\r' ∷ b'\n' ∷ rest)) ≡ matched line rest
  unfolding header_line
  header_line-matched [] rest h = absurd (h.0 refl)
  header_line-matched (c ∷ cs) rest h =
      let after = b'\r' ∷ b'\n' ∷ rest in
      seq-matched qi (qi.plus ℕ Bytes snoc 0 line_char) (qi.eol Bytes) [] (c ∷ cs)
        (c ∷ (cs ++ after)) after
        (plus-Takes qi line_char [] c cs after (line_char-Takes (c ∷ cs) after h.1)
          (line_char-Fails rest))
      ∙ qi.eol_law Bytes (c ∷ cs) after

  header_line-Fails : (body : Bytes) → Fails (header_line qi [] (b'\r' ∷ b'\n' ∷ body))
  unfolding header_line
  header_line-Fails body =
      seq-Fails qi (qi.plus ℕ Bytes snoc 0 line_char) (qi.eol Bytes) [] (b'\r' ∷ b'\n' ∷ body)
        (plus-Fails qi line_char [] (b'\r' ∷ b'\n' ∷ body) (line_char-Fails body))

  kleene-lines :
      (done lines : List Bytes) (body : Bytes)
      → All IsLine lines
      → qi.kleene Bytes (List Bytes) snoc [] (header_line qi) done (write_piece lines body)
        ≡ matched (done ++ lines) (b'\r' ∷ b'\n' ∷ body)
  kleene-lines done [] body h =
      let (a, e) = header_line-Fails body in
      qi.kleene_end Bytes (List Bytes) snoc [] (header_line qi) done _ a e
      ∙ ap (λ (l : List Bytes). matched l (b'\r' ∷ b'\n' ∷ body)) (sym (append-nil done))
  kleene-lines done (line ∷ lines) body h =
      qi.kleene_more Bytes (List Bytes) snoc [] (header_line qi) done _ line
        (write_piece lines body) (header_line-matched line (write_piece lines body) h.0)
        (omega (arith, length-append line (b'\r' ∷ b'\n' ∷ write_piece lines body)))
      ∙ kleene-lines (done ++ line ∷ []) lines body h.1
      ∙ ap (λ (l : List Bytes). matched l (b'\r' ∷ b'\n' ∷ body))
          (append_assoc done (line ∷ []) lines)

  abbrev body_char : Parser ℕ
  body_char = qi.alt ℕ (qi.char_ is_ascii) (qi.eol ℕ)

  body_char-matched : (c : ℕ) (cs : Bytes) → c < 128 → body_char 0 (c ∷ cs) ≡ matched c cs
  body_char-matched c cs h =
      let first : qi.char_ is_ascii 0 (c ∷ cs) ≡ matched c cs =
        qi.char_law is_ascii 0 (c ∷ cs) ∙ ground arith in
      qi.alt_law ℕ (qi.char_ is_ascii) (qi.eol ℕ) 0 (c ∷ cs)
      ∙ ap (λ (m : Match ℕ). or_else m (λ a. qi.eol ℕ a (c ∷ cs))) first

  body_char-Fails : Fails (body_char 0 [])
  body_char-Fails = (
    0,
    qi.alt_law ℕ (qi.char_ is_ascii) (qi.eol ℕ) 0 []
        ∙ ap (λ (m : Match ℕ). or_else m (λ a. qi.eol ℕ a [])) (qi.char_law is_ascii 0 [])
        ∙ qi.eol_law ℕ 0 [],
  )

  body_char-Takes : (body : Bytes) → All (λ c. c < 128) body → Takes body_char body []
  body_char-Takes [] h = tt
  body_char-Takes (c ∷ cs) h = (body_char-matched c (cs ++ []) h.0, body_char-Takes cs h.1)

  chunk_body-matched :
      (body : Bytes) → body ≢ [] → All (λ c. c < 128) body → chunk_body qi [] body ≡ matched body []
  unfolding chunk_body
  chunk_body-matched [] ne h = absurd (ne refl)
  chunk_body-matched (c ∷ cs) ne h =
      ap (λ (t : Bytes). qi.plus ℕ Bytes snoc 0 body_char [] (c ∷ t)) (sym (append-nil cs))
      ∙ plus-Takes qi body_char [] c cs [] (body_char-Takes (c ∷ cs) h) body_char-Fails

  chunk_body-Fails : Fails (chunk_body qi [] [])
  unfolding chunk_body
  chunk_body-Fails = plus-Fails qi body_char [] [] body_char-Fails

  kleene-body :
      (lines : List Bytes) (body : Bytes)
      → body ≢ []
      → All (λ c. c < 128) body
      → qi.kleene Bytes (List Bytes) snoc [] (chunk_body qi) lines body
        ≡ matched (lines ++ body ∷ []) []
  kleene-body lines [] ne h = absurd (ne refl)
  kleene-body lines (c ∷ cs) ne h =
      let (a, e) = chunk_body-Fails in
      qi.kleene_more Bytes (List Bytes) snoc [] (chunk_body qi) lines (c ∷ cs) (c ∷ cs) []
        (chunk_body-matched (c ∷ cs) ne h) (omega arith)
      ∙ qi.kleene_end Bytes (List Bytes) snoc [] (chunk_body qi) _ [] a e

-- A chunk that is written out is read back as its header lines and its body. Each line must have a
-- character and be ASCII with no end of line, and so the body, but for ends of line.
pub parse_chunk_tokens-write_piece :
    (qi : Qi) (lines : List Bytes) (body : Bytes)
    → All IsLine lines
    → body ≢ []
    → All (λ c. c < 128) body
    → parse_chunk_tokens qi (write_piece lines body) ≡ some (lines ++ body ∷ [])
unfolding parse_chunk_tokens chunk_content
parse_chunk_tokens-write_piece qi lines body h ne ascii =
    let L = List Bytes in
    let many = qi.kleene Bytes L snoc [] (header_line qi) in
    let after = b'\r' ∷ b'\n' ∷ body in
    let front =
      seq-matched qi many (qi.eol L) [] lines (write_piece lines body) after
        (kleene-lines qi [] lines body h)
      ∙ qi.eol_law L lines after in
    let all =
      seq-matched qi (qi.seq L many (qi.eol L)) (qi.kleene Bytes L snoc [] (chunk_body qi)) [] lines
        (write_piece lines body) body front
      ∙ kleene-body qi lines body ne ascii in
    rw (all, parse_with) refl

line_char-Fails_nil : (qi : Qi) → Fails (line_char qi 0 [])
line_char-Fails_nil qi = (
  0,
  minus-matched qi (qi.char_ is_ascii) (qi.eol (Unit {0})) 0 [] (tt, qi.eol_law (Unit {0}) tt [])
      ∙ qi.char_law is_ascii 0 [],
)

header_line-Fails_nil : (qi : Qi) → Fails (header_line qi [] [])
unfolding header_line
header_line-Fails_nil qi =
    seq-Fails qi (qi.plus ℕ Bytes snoc 0 (line_char qi)) (qi.eol Bytes) [] []
      (plus-Fails qi (line_char qi) [] [] (line_char-Fails_nil qi))

-- An empty chunk is not read.
pub parse_chunk_tokens_nil : (qi : Qi) → parse_chunk_tokens qi [] ≡ none
unfolding parse_chunk_tokens chunk_content
parse_chunk_tokens_nil qi =
    let L = List Bytes in
    let many = qi.kleene Bytes L snoc [] (header_line qi) in
    let (a, e) = header_line-Fails_nil qi in
    let front =
      seq-matched qi many (qi.eol L) [] [] [] []
        (qi.kleene_end Bytes L snoc [] (header_line qi) [] [] a e)
      ∙ qi.eol_law L [] [] in
    let all =
      seq-failed qi (qi.seq L many (qi.eol L)) (qi.kleene Bytes L snoc [] (chunk_body qi)) [] [] []
        front in
    rw (all, parse_with) refl
