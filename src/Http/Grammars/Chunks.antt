-- ===== src/Http/Grammars/Chunks.antt =====
-- The chunks of a form that is written out are read back.
use camlispp.Prelude.{
  ℕ, ◌<◌, ◌≡◌, ◌≢◌, refl, sym, ap, ◌∙◌, false, List, [], ◌∷◌, ◌++◌, some, arith, length,
  length-append, append_assoc, append-nil, All, drop, Bool-cases, inl, inr,
}
use camlispp.StdString.{
  Bytes, bytes, starts_with, starts_with-append_self, starts_with-append, starts_with-pieces,
  drop-length-append,
}
use camlispp.Qi.{Qi, Parser, matched, element, snoc, parse_with}
use camlispp.Qi.Runs.{
  Fails, Takes, seq-matched, seq-Fails, opt-matched, lit-matched, lit-Fails, minus-matched,
  minus-Fails, plus-Takes, element-matched,
}
use camlispp.Http.Grammars.Form.{
  is_ascii, chunk_boundry, end_boundry, chunk_char, chunk, chunks_content, parse_chunks,
}

abbrev pub delimiter : Bytes → Bytes
delimiter boundry = bytes "--" ++ boundry

-- A form of pieces: each behind a delimiter and a line's end, and the closing delimiter.
abbrev pub write_pieces : Bytes → List Bytes → Bytes
write_pieces boundry [] = delimiter boundry ++ bytes "--\r\n"
write_pieces boundry (piece ∷ pieces) =
    delimiter boundry ++ (b'\r' ∷ b'\n' ∷ (piece ++ write_pieces boundry pieces))

-- The delimiter starts nowhere in the piece, not even where it would end in the delimiter behind.
abbrev pub IsFree : Bytes → Bytes → Type 0
IsFree boundry [] = Unit
IsFree boundry (c ∷ cs) =
    (starts_with ((c ∷ cs) ++ delimiter boundry) (delimiter boundry) ≡ false) × IsFree boundry cs

-- A piece that can be read back.
abbrev pub IsPiece : Bytes → Bytes → Type 0
IsPiece boundry piece = (piece ≢ []) × All (λ c. c < 128) piece × IsFree boundry piece

module _ (qi : Qi) (boundry : Bytes) where
  abbrev opening : (A : Type 0) → Parser A
  opening A = qi.seq A (qi.lit A (bytes "--")) (qi.lit A boundry)

  lit_self :
      (A : Type 0) (w : Bytes) (a : A) (rest : Bytes) → qi.lit A w a (w ++ rest) ≡ matched a rest
  lit_self A w a rest =
      lit-matched qi A w a (w ++ rest) (starts_with-append_self w rest)
      ∙ ap (λ (t : Bytes). matched a t) (drop-length-append w rest)

  opening-matched :
      (A : Type 0) (a : A) (rest : Bytes) → opening A a (delimiter boundry ++ rest) ≡ matched a rest
  opening-matched A a rest =
      seq-matched qi (qi.lit A (bytes "--")) (qi.lit A boundry) a a _ (boundry ++ rest)
        (lit_self A (bytes "--") a (boundry ++ rest))
      ∙ lit_self A boundry a rest

  opening-Fails :
      (A : Type 0) (a : A) (s : Bytes)
      → starts_with s (delimiter boundry) ≡ false
      → Fails (opening A a s)
  opening-Fails A a s h = elim (Bool-cases (starts_with s (bytes "--"))) [
    | inr no' ↦
        seq-Fails qi (qi.lit A (bytes "--")) (qi.lit A boundry) a s
          (lit-Fails qi A (bytes "--") a s no')
    | inl yes' ↦
        let first = lit-matched qi A (bytes "--") a s yes' in
        let pieces = starts_with-pieces s (bytes "--") boundry in
        let second : starts_with (drop 2 s) boundry ≡ false = ground (arith, pieces, h, yes') in
        let (b, e) = lit-Fails qi A boundry a (drop 2 s) second in
        (b, seq-matched qi (qi.lit A (bytes "--")) (qi.lit A boundry) a a s (drop 2 s) first ∙ e)
  ]

  pub chunk_boundry-matched :
      (A : Type 0) (a : A) (rest : Bytes)
      → chunk_boundry qi A boundry a (delimiter boundry ++ (b'\r' ∷ b'\n' ∷ rest)) ≡ matched a rest
  unfolding chunk_boundry
  chunk_boundry-matched A a rest =
      seq-matched qi (opening A) (qi.eol A) a a _ (b'\r' ∷ b'\n' ∷ rest)
        (opening-matched A a (b'\r' ∷ b'\n' ∷ rest))
      ∙ qi.eol_law A a (b'\r' ∷ b'\n' ∷ rest)

  chunk_boundry-Fails_end :
      (A : Type 0) (a : A)
      → Fails (chunk_boundry qi A boundry a (delimiter boundry ++ bytes "--\r\n"))
  unfolding chunk_boundry
  chunk_boundry-Fails_end A a = (
    a,
    seq-matched qi (opening A) (qi.eol A) a a _ (bytes "--\r\n")
          (opening-matched A a (bytes "--\r\n"))
        ∙ qi.eol_law A a (bytes "--\r\n"),
  )

  end_boundry-matched :
      (A : Type 0) (a : A)
      → end_boundry qi A boundry a (delimiter boundry ++ bytes "--\r\n") ≡ matched a []
  unfolding end_boundry
  end_boundry-matched A a =
      seq-matched qi (qi.seq A (opening A) (qi.lit A (bytes "--"))) (qi.opt A (qi.eol A)) a a _
        (bytes "\r\n")
        (seq-matched qi (opening A) (qi.lit A (bytes "--")) a a _ (bytes "--\r\n")
            (opening-matched A a (bytes "--\r\n"))
          ∙ lit_self A (bytes "--") a (bytes "\r\n"))
      ∙ opt-matched qi (qi.eol A) a a (bytes "\r\n") [] (qi.eol_law A a (bytes "\r\n"))

  pub chunk_boundry-Fails :
      (A : Type 0) (a : A) (s : Bytes)
      → starts_with s (delimiter boundry) ≡ false
      → Fails (chunk_boundry qi A boundry a s)
  unfolding chunk_boundry
  chunk_boundry-Fails A a s h = seq-Fails qi (opening A) (qi.eol A) a s (opening-Fails A a s h)

  pub end_boundry-Fails :
      (A : Type 0) (a : A) (s : Bytes)
      → starts_with s (delimiter boundry) ≡ false
      → Fails (end_boundry qi A boundry a s)
  unfolding end_boundry
  end_boundry-Fails A a s h =
      seq-Fails qi (qi.seq A (opening A) (qi.lit A (bytes "--"))) (qi.opt A (qi.eol A)) a s
        (seq-Fails qi (opening A) (qi.lit A (bytes "--")) a s (opening-Fails A a s h))

  -- A character that no delimiter starts at.
  pub chunk_char-matched :
      (c : ℕ) (cs : Bytes)
      → c < 128
      → starts_with (c ∷ cs) (delimiter boundry) ≡ false
      → chunk_char qi boundry 0 (c ∷ cs) ≡ matched c cs
  unfolding chunk_char
  chunk_char-matched c cs h f =
      minus-matched qi _ _ 0 (c ∷ cs) (chunk_boundry-Fails (Unit {0}) tt (c ∷ cs) f)
      ∙ minus-matched qi _ _ 0 (c ∷ cs) (end_boundry-Fails (Unit {0}) tt (c ∷ cs) f)
      ∙ qi.char_law is_ascii 0 (c ∷ cs)
      ∙ ground arith

  chunk_char-Fails_next :
      (rest : Bytes) → Fails (chunk_char qi boundry 0 (delimiter boundry ++ (b'\r' ∷ b'\n' ∷ rest)))
  unfolding chunk_char
  chunk_char-Fails_next rest =
      minus-Fails qi _ _ 0 _ tt rest (chunk_boundry-matched (Unit {0}) tt rest)

  chunk_char-Fails_end : Fails (chunk_char qi boundry 0 (delimiter boundry ++ bytes "--\r\n"))
  unfolding chunk_char
  chunk_char-Fails_end =
      let (a, e) =
        minus-Fails qi (qi.char_ is_ascii) (end_boundry qi (Unit {0}) boundry) 0 _ tt []
          (end_boundry-matched (Unit {0}) tt) in
      (a, minus-matched qi _ _ 0 _ (chunk_boundry-Fails_end (Unit {0}) tt) ∙ e)

  chunk_char-Fails :
      (pieces : List Bytes) → Fails (chunk_char qi boundry 0 (write_pieces boundry pieces))
  chunk_char-Fails [] = chunk_char-Fails_end
  chunk_char-Fails (piece ∷ pieces) = chunk_char-Fails_next (piece ++ write_pieces boundry pieces)

  delimiter_first :
      (pieces : List Bytes)
      → (more : Bytes) × (write_pieces boundry pieces ≡ delimiter boundry ++ more)
  delimiter_first [] = (bytes "--\r\n", refl)
  delimiter_first (piece ∷ pieces) = (b'\r' ∷ b'\n' ∷ (piece ++ write_pieces boundry pieces), refl)

  pub free-starts_with :
      (s : Bytes) (pieces : List Bytes)
      → starts_with (s ++ delimiter boundry) (delimiter boundry) ≡ false
      → starts_with (s ++ write_pieces boundry pieces) (delimiter boundry) ≡ false
  free-starts_with s pieces h =
      let (more, e) = delimiter_first pieces in
      ap (λ (t : Bytes). starts_with (s ++ t) (delimiter boundry)) e
      ∙ ap (λ (t : Bytes). starts_with t (delimiter boundry))
          (sym (append_assoc s (delimiter boundry) more))
      ∙ starts_with-append (s ++ delimiter boundry) more (delimiter boundry)
          (omega (arith, length-append s (delimiter boundry)))
      ∙ h

  chunk_char-Takes :
      (s : Bytes) (pieces : List Bytes)
      → All (λ c. c < 128) s
      → IsFree boundry s
      → Takes (chunk_char qi boundry) s (write_pieces boundry pieces)
  chunk_char-Takes [] pieces h f = tt
  chunk_char-Takes (c ∷ cs) pieces h f = (
    chunk_char-matched c (cs ++ write_pieces boundry pieces) h.0
        (free-starts_with (c ∷ cs) pieces f.0),
    chunk_char-Takes cs pieces h.1 f.1,
  )

  chunk-matched :
      (piece : Bytes) (pieces : List Bytes)
      → IsPiece boundry piece
      → chunk qi boundry [] (write_pieces boundry (piece ∷ pieces))
        ≡ matched piece (write_pieces boundry pieces)
  unfolding chunk
  chunk-matched [] pieces h = absurd (h.0 refl)
  chunk-matched (c ∷ cs) pieces h =
      seq-matched qi (chunk_boundry qi Bytes boundry) _ [] [] _
        ((c ∷ cs) ++ write_pieces boundry pieces)
        (chunk_boundry-matched Bytes [] ((c ∷ cs) ++ write_pieces boundry pieces))
      ∙ plus-Takes qi (chunk_char qi boundry) [] c cs (write_pieces boundry pieces)
          (chunk_char-Takes (c ∷ cs) pieces h.1 h.2) (chunk_char-Fails pieces)

  chunk-Fails : Fails (chunk qi boundry [] (write_pieces boundry []))
  unfolding chunk
  chunk-Fails =
      seq-Fails qi (chunk_boundry qi Bytes boundry) _ [] _ (chunk_boundry-Fails_end Bytes [])

  write_pieces-length :
      (piece : Bytes) (pieces : List Bytes)
      → length (write_pieces boundry pieces) < length (write_pieces boundry (piece ∷ pieces))
  write_pieces-length piece pieces = omega (
    arith,
    length-append (delimiter boundry) (b'\r' ∷ b'\n' ∷ (piece ++ write_pieces boundry pieces)),
    length-append piece (write_pieces boundry pieces),
  )

  kleene-chunks :
      (done pieces : List Bytes)
      → All (IsPiece boundry) pieces
      → qi.kleene Bytes (List Bytes) snoc [] (chunk qi boundry) done (write_pieces boundry pieces)
        ≡ matched (done ++ pieces) (write_pieces boundry [])
  kleene-chunks done [] h =
      let (a, e) = chunk-Fails in
      qi.kleene_end Bytes (List Bytes) snoc [] (chunk qi boundry) done _ a e
      ∙ ap (λ (l : List Bytes). matched l (write_pieces boundry [])) (sym (append-nil done))
  kleene-chunks done (piece ∷ pieces) h =
      qi.kleene_more Bytes (List Bytes) snoc [] (chunk qi boundry) done _ piece
        (write_pieces boundry pieces) (chunk-matched piece pieces h.0)
        (write_pieces-length piece pieces)
      ∙ kleene-chunks (done ++ piece ∷ []) pieces h.1
      ∙ ap (λ (l : List Bytes). matched l (write_pieces boundry []))
          (append_assoc done (piece ∷ []) pieces)

-- The chunks of a form that is written out are its pieces, and one more that is empty. There must
-- be at least one piece, and each must have a character, be ASCII, and be free of the delimiter.
pub parse_chunks-write_pieces :
    (qi : Qi) (boundry piece : Bytes) (pieces : List Bytes)
    → All (IsPiece boundry) (piece ∷ pieces)
    → parse_chunks qi boundry (write_pieces boundry (piece ∷ pieces))
      ≡ some (piece ∷ (pieces ++ [] ∷ []))
unfolding parse_chunks chunks_content
parse_chunks-write_pieces qi boundry piece pieces h =
    let L = List Bytes in
    let first =
      element-matched qi snoc [] (chunk qi boundry) [] _ piece (write_pieces boundry pieces)
        (chunk-matched qi boundry piece pieces h.0) in
    let loop =
      seq-matched qi (element snoc [] (chunk qi boundry))
        (qi.kleene Bytes L snoc [] (chunk qi boundry)) [] (piece ∷ [])
        (write_pieces boundry (piece ∷ pieces)) (write_pieces boundry pieces) first
      ∙ kleene-chunks qi boundry (piece ∷ []) pieces h.1 in
    let front =
      qi.seq L (element snoc [] (chunk qi boundry))
        (qi.kleene Bytes L snoc [] (chunk qi boundry)) in
    let all =
      seq-matched qi front (element snoc [] (end_boundry qi Bytes boundry)) [] (piece ∷ pieces)
        (write_pieces boundry (piece ∷ pieces)) (write_pieces boundry []) loop
      ∙ element-matched qi snoc [] (end_boundry qi Bytes boundry) (piece ∷ pieces)
          (write_pieces boundry []) [] [] (end_boundry-matched qi boundry Bytes []) in
    rw (all, parse_with) refl
