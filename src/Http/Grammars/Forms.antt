-- ===== src/Http/Grammars/Forms.antt =====
-- A form that is written out is read back, and a form with a byte that is not ASCII is not.
use camlispp.Prelude.{
  ℕ, ◌+◌, ◌<◌, ◌≡◌, refl, ap, ◌∙◌, List, [], ◌∷◌, ◌++◌, some, arith, map, length, length-append,
  All, All-weaken, All-append, ◌==◌, Option-cases, Bool-cases, inl, inr,
}
use camlispp.StdString.{Bytes, to_unsigned, find, npos, substr}
use camlispp.Qi.{Qi}
use camlispp.Http.Multipart.{
  Grammars, Part, erase_last, erase_last_crlf, add_header_text, part_of, parts_of, form_parts,
}
use camlispp.Http.Grammars.Calls.{qi_grammars}
use camlispp.Http.Grammars.Form.{parse_chunk_tokens}
use camlispp.Http.Grammars.Chunks.{write_pieces, IsPiece, IsFree, parse_chunks-write_pieces}
use camlispp.Http.Grammars.Pieces.{
  write_piece, IsLine, IsLineChar, parse_chunk_tokens_nil, parse_chunk_tokens-write_piece,
}

-- A part of a form as a client writes it: header lines, and a payload.
pub record FormPart : Type 0 where
  pub lines : List Bytes
  pub content : Bytes

abbrev pub write_part : FormPart → Bytes
write_part p = write_piece p.lines (p.content ++ (b'\r' ∷ b'\n' ∷ []))

abbrev pub write_form : Bytes → List FormPart → Bytes
write_form boundry parts = write_pieces boundry (map write_part parts)

-- A part that can be read back: its lines and its payload are ASCII, and the delimiter does not
-- stand in it.
abbrev pub IsPart : Bytes → FormPart → Type 0
IsPart boundry p = All IsLine p.lines × All (λ c. c < 128) p.content × IsFree boundry (write_part p)

erase_last-append : (x y : ℕ) (s : Bytes) → erase_last x y (s ++ x ∷ y ∷ []) ≡ some s
unfolding erase_last
erase_last-append x y [] = ground arith
erase_last-append x y (c ∷ []) = ground (arith, erase_last-append x y [])
erase_last-append x y (c ∷ d ∷ s) = rw (erase_last-append x y (d ∷ s), erase_last) refl

-- The line's end that the delimiter adds is taken off the payload.
erase_last_crlf-append : (s : Bytes) → erase_last_crlf (s ++ (b'\r' ∷ b'\n' ∷ [])) ≡ s
unfolding erase_last_crlf
erase_last_crlf-append s = rw (erase_last-append b'\r' b'\n' s, erase_last_crlf) refl

payload-add_header_text :
    (g : Grammars) (input : Bytes) (part : Part)
    → (add_header_text g input part).payload ≡ part.payload
unfolding add_header_text
payload-add_header_text g input part =
    let split = to_unsigned (find input (b':' ∷ [])) in
    elim (Bool-cases (split == npos)) [
      | inl h ↦ rw (h, add_header_text) refl
      | inr h ↦ elim (Option-cases (g.header_tokens (substr input (to_unsigned (split + 1))))) [
        | inl e ↦ rw (h, e, add_header_text) refl
        | inr (m, e) ↦ rw (h, e, add_header_text) refl
      ]
    ]

payload-part_of :
    (g : Grammars) (lines : List Bytes) (body : Bytes)
    → (part_of g (lines ++ body ∷ [])).payload ≡ erase_last_crlf body
unfolding part_of
payload-part_of g [] body = refl
payload-part_of g (line ∷ []) body = payload-add_header_text g line (part_of g (body ∷ []))
payload-part_of g (line ∷ other ∷ lines) body =
    payload-add_header_text g line (part_of g ((other ∷ lines) ++ body ∷ []))
    ∙ payload-part_of g (other ∷ lines) body

abbrev Ascii : Bytes → Type 0
Ascii s = All (λ c. c < 128) s

write_piece-Ascii :
    (lines : List Bytes) (body : Bytes)
    → All IsLine lines
    → Ascii body
    → Ascii (write_piece lines body)
write_piece-Ascii [] body h k = (omega arith, (omega arith, k))
write_piece-Ascii (line ∷ lines) body h k =
    All-append (λ c. c < 128) line _ (All-weaken IsLineChar (λ c. c < 128) line (λ c q. q.0) h.0.1)
      (omega arith, (omega arith, write_piece-Ascii lines body h.1 k))

write_piece_nonempty : (lines : List Bytes) (body : Bytes) → 0 < length (write_piece lines body)
write_piece_nonempty [] body = omega arith
write_piece_nonempty (line ∷ lines) body =
    omega (arith, length-append line (b'\r' ∷ b'\n' ∷ write_piece lines body))

content-Ascii : (p : FormPart) → Ascii p.content → Ascii (p.content ++ (b'\r' ∷ b'\n' ∷ []))
content-Ascii p h = All-append (λ c. c < 128) p.content _ h (omega arith, (omega arith, tt))

IsPart-IsPiece :
    (boundry : Bytes) (p : FormPart) → IsPart boundry p → IsPiece boundry (write_part p)
IsPart-IsPiece boundry p h =
    let body = p.content ++ (b'\r' ∷ b'\n' ∷ []) in
    (
      λ e. let n = write_piece_nonempty p.lines body in let l = ap length e in omega arith,
      write_piece-Ascii p.lines body h.0 (content-Ascii p h.1),
      h.2,
    )

parts-pieces :
    (boundry : Bytes) (parts : List FormPart)
    → All (IsPart boundry) parts
    → All (IsPiece boundry) (map write_part parts)
parts-pieces boundry [] h = tt
parts-pieces boundry (p ∷ ps) h = (IsPart-IsPiece boundry p h.0, parts-pieces boundry ps h.1)

abbrev pub payloads : List Part → List Bytes
payloads parts = map (λ (p : Part). p.payload) parts

abbrev pub contents : List FormPart → List Bytes
contents parts = map (λ (p : FormPart). p.content) parts

module _ (qi : Qi) where
  parts_of-step :
      (chunk : Bytes) (rest : List Bytes) (pieces : List Bytes)
      → parse_chunk_tokens qi chunk ≡ some pieces
      → parts_of (qi_grammars qi) (chunk ∷ rest)
        ≡ part_of (qi_grammars qi) pieces ∷ parts_of (qi_grammars qi) rest
  unfolding parts_of
  parts_of-step chunk rest pieces e = rw (e, parts_of) refl

  parts_of_nil : parts_of (qi_grammars qi) ([] ∷ []) ≡ []
  unfolding parts_of
  parts_of_nil = rw (parse_chunk_tokens_nil qi, parts_of) refl

  written_part :
      (boundry : Bytes) (p : FormPart)
      → IsPart boundry p
      → parse_chunk_tokens qi (write_part p)
        ≡ some (p.lines ++ (p.content ++ (b'\r' ∷ b'\n' ∷ [])) ∷ [])
  written_part boundry p h =
      parse_chunk_tokens-write_piece qi p.lines (p.content ++ (b'\r' ∷ b'\n' ∷ [])) h.0
        (λ e.
          let l = length-append p.content (b'\r' ∷ b'\n' ∷ []) in
          let n = ap length e in omega arith)
        (content-Ascii p h.1)

  payloads-parts_of :
      (boundry : Bytes) (parts : List FormPart)
      → All (IsPart boundry) parts
      → payloads (parts_of (qi_grammars qi) (map write_part parts ++ [] ∷ [])) ≡ contents parts
  payloads-parts_of boundry [] h = ap payloads parts_of_nil
  payloads-parts_of boundry (p ∷ ps) h =
      let body = p.content ++ (b'\r' ∷ b'\n' ∷ []) in
      let one = payload-part_of (qi_grammars qi) p.lines body ∙ erase_last_crlf-append p.content in
      ap payloads (
        parts_of-step (write_part p) (map write_part ps ++ [] ∷ []) (p.lines ++ body ∷ [])
          (written_part boundry p h.0))
      ∙ ap (λ (b : Bytes). b ∷ payloads (parts_of (qi_grammars qi) (map write_part ps ++ [] ∷ [])))
          one
      ∙ ap (λ (l : List Bytes). p.content ∷ l) (payloads-parts_of boundry ps h.1)

  -- The payloads of a form that is written out are read back, the empty ones included. Each part
  -- must have header lines and a payload in ASCII, in which the delimiter does not stand.
  pub form_parts-write_form :
      (boundry : Bytes) (part : FormPart) (parts : List FormPart)
      → All (IsPart boundry) (part ∷ parts)
      → payloads (form_parts (qi_grammars qi) boundry (write_form boundry (part ∷ parts)))
        ≡ contents (part ∷ parts)
  unfolding form_parts
  form_parts-write_form boundry part parts h =
      rw
        (
          parse_chunks-write_pieces qi boundry (write_part part) (map write_part parts)
              (parts-pieces boundry (part ∷ parts) h),
          form_parts,
        )
        (payloads-parts_of boundry (part ∷ parts) h)
