-- ===== src/Http/Grammars/NotAscii.antt =====
-- A form with a byte that is not ASCII is not read.
use camlispp.Prelude.{
  ℕ, ◌<◌, ◌≤◌, ◌≡◌, refl, sym, ap, ◌∙◌, false, List, [], ◌∷◌, ◌++◌, none, arith, append_assoc, All,
}
use camlispp.StdString.{Bytes, starts_with}
use camlispp.Qi.{Qi, Parser, matched, element, snoc, parse_with}
use camlispp.Qi.Runs.{
  Fails, Takes, seq-matched, seq-Fails, minus-matched, plus-Takes, plus-Fails, element-matched,
  element-Fails,
}
use camlispp.Http.Grammars.Form.{
  is_ascii, chunk_boundry, end_boundry, chunk_char, chunk, chunks_content, parse_chunks,
}
use camlispp.Http.Grammars.Chunks.{
  delimiter, write_pieces, IsFree, chunk_boundry-matched, chunk_boundry-Fails, end_boundry-Fails,
  chunk_char-matched, free-starts_with,
}

module _ (qi : Qi) (boundry : Bytes) (c : ℕ) (after : Bytes) (pieces : List Bytes)
    (high : 128 ≤ c) where
  -- what stands from the byte on
  abbrev stop : Bytes
  stop = c ∷ (after ++ write_pieces boundry pieces)

  free_at :
      (x : Bytes)
      → starts_with ((x ++ c ∷ after) ++ delimiter boundry) (delimiter boundry) ≡ false
      → starts_with (x ++ stop) (delimiter boundry) ≡ false
  free_at x h =
      ap (λ (t : Bytes). starts_with t (delimiter boundry))
        (sym (append_assoc x (c ∷ after) (write_pieces boundry pieces)))
      ∙ free-starts_with qi boundry (x ++ c ∷ after) pieces h

  free_stop :
      (x : Bytes) → IsFree boundry (x ++ c ∷ after) → starts_with stop (delimiter boundry) ≡ false
  free_stop [] h = free_at [] h.0
  free_stop (y ∷ x) h = free_stop x h.1

  takes :
      (x : Bytes)
      → All (λ d. d < 128) x
      → IsFree boundry (x ++ c ∷ after)
      → Takes (chunk_char qi boundry) x stop
  takes [] a h = tt
  takes (y ∷ x) a h =
      (chunk_char-matched qi boundry y (x ++ stop) a.0 (free_at (y ∷ x) h.0), takes x a.1 h.1)

  module _ (free : starts_with stop (delimiter boundry) ≡ false) where
    chunk_char-stops : Fails (chunk_char qi boundry 0 stop)
    unfolding chunk_char
    chunk_char-stops = (
      0,
      minus-matched qi _ _ 0 stop (chunk_boundry-Fails qi boundry (Unit {0}) tt stop free)
          ∙ minus-matched qi _ _ 0 stop (end_boundry-Fails qi boundry (Unit {0}) tt stop free)
          ∙ qi.char_law is_ascii 0 stop
          ∙ ground arith,
    )

    chunk-stops : Fails (chunk qi boundry [] stop)
    unfolding chunk
    chunk-stops =
        seq-Fails qi (chunk_boundry qi Bytes boundry) _ [] stop
          (chunk_boundry-Fails qi boundry Bytes [] stop free)

    -- The first chunk is the text in front of the byte, if it has a character.
    chunk-first :
        (y : ℕ) (x : Bytes)
        → Takes (chunk_char qi boundry) (y ∷ x) stop
        → chunk qi boundry [] (delimiter boundry ++ (b'\r' ∷ b'\n' ∷ ((y ∷ x) ++ stop)))
          ≡ matched (y ∷ x) stop
    unfolding chunk
    chunk-first y x t =
        seq-matched qi (chunk_boundry qi Bytes boundry) _ [] [] _ ((y ∷ x) ++ stop)
          (chunk_boundry-matched qi boundry Bytes [] ((y ∷ x) ++ stop))
        ∙ plus-Takes qi (chunk_char qi boundry) [] y x stop t chunk_char-stops

    chunk-first_Fails : Fails (chunk qi boundry [] (delimiter boundry ++ (b'\r' ∷ b'\n' ∷ stop)))
    unfolding chunk
    chunk-first_Fails =
        let (a, e) = plus-Fails qi (chunk_char qi boundry) [] stop chunk_char-stops in
        (
          a,
          seq-matched qi (chunk_boundry qi Bytes boundry) _ [] [] _ stop
                (chunk_boundry-matched qi boundry Bytes [] stop)
              ∙ e,
        )

    content-Fails :
        (x : Bytes)
        → Takes (chunk_char qi boundry) x stop
        → Fails (chunks_content qi boundry [] (delimiter boundry ++ (b'\r' ∷ b'\n' ∷ (x ++ stop))))
    unfolding chunks_content
    content-Fails [] t =
        let L = List Bytes in
        let first = element snoc [] (chunk qi boundry) in
        let loop = qi.kleene Bytes L snoc [] (chunk qi boundry) in
        seq-Fails qi (qi.seq L first loop) _ [] _ (
          seq-Fails qi first loop [] _
            (element-Fails qi snoc [] (chunk qi boundry) [] _ chunk-first_Fails))
    content-Fails (y ∷ x) t =
        let L = List Bytes in
        let first = element snoc [] (chunk qi boundry) in
        let loop = qi.kleene Bytes L snoc [] (chunk qi boundry) in
        let one = (y ∷ x) ∷ [] in
        let (a, e) = chunk-stops in
        let front =
          seq-matched qi first loop [] one _ stop
            (element-matched qi snoc [] (chunk qi boundry) [] _ (y ∷ x) stop (chunk-first y x t))
          ∙ qi.kleene_end Bytes L snoc [] (chunk qi boundry) one stop a e in
        let (b, f) =
          element-Fails qi snoc [] (end_boundry qi Bytes boundry) one stop
            (end_boundry-Fails qi boundry Bytes [] stop free) in
        (
          b,
          seq-matched qi (qi.seq L first loop) (element snoc [] (end_boundry qi Bytes boundry)) []
                one _ stop front
              ∙ f,
        )

Fails-parse_with :
    {A : Type 0}
    → (p : Parser A) (new : A) (s : Bytes) → Fails (p new s)
    → parse_with p new s ≡ none
Fails-parse_with p new s (a, e) = rw (e, parse_with) refl

-- A form whose first piece has a byte that is not ASCII is not read at all. The text in front of the
-- byte is ASCII, and the delimiter does not stand in the piece.
pub parse_chunks-not_ascii :
    (qi : Qi) (boundry x : Bytes) (c : ℕ) (after : Bytes) (pieces : List Bytes)
    → All (λ d. d < 128) x
    → 128 ≤ c
    → IsFree boundry (x ++ c ∷ after)
    → parse_chunks qi boundry (write_pieces boundry ((x ++ c ∷ after) ∷ pieces)) ≡ none
unfolding parse_chunks
parse_chunks-not_ascii qi boundry x c after pieces a high free =
    let clear = free_stop qi boundry c after pieces high x free in
    let input = append_assoc x (c ∷ after) (write_pieces boundry pieces) in
    let bad =
      content-Fails qi boundry c after pieces high clear x
        (takes qi boundry c after pieces high x a free) in
    ap
      (λ (t : Bytes).
        parse_with (chunks_content qi boundry) [] (delimiter boundry ++ (b'\r' ∷ b'\n' ∷ t)))
      input
    ∙ Fails-parse_with (chunks_content qi boundry) [] _ bad
