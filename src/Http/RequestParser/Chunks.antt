-- ===== src/Http/RequestParser/Chunks.antt =====
-- The parser may be fed in pieces.
use camlispp.Prelude.{[], ◌∷◌, ◌++◌, ◌≡◌, refl, ap, ◌∙◌}
use camlispp.StdString.{Bytes}
use camlispp.Http.Request.{Request}
use camlispp.Http.RequestParser.Defs.{
  RequestParser, is_true, is_false, indeterminate, Step, Parsed, consume, continue, parse,
}

-- What a second call of parse makes of more input: nothing once the first was definite.
abbrev pub resume : Parsed → Bytes → Parsed
resume first more = elim first.result [
  | indeterminate ↦ parse first.parser first.request more
  | is_true ↦ record first { rest = first.rest ++ more }
  | is_false ↦ record first { rest = first.rest ++ more }
]

resume-continue :
    (s : Step) (rest ys : Bytes) (more : Parsed)
    → continue s (rest ++ ys) (resume more ys) ≡ resume (continue s rest more) ys
resume-continue (indeterminate, p, r) rest ys more = refl
resume-continue (is_true, p, r) rest ys more = refl
resume-continue (is_false, p, r) rest ys more = refl

-- Parsing two pieces one after the other gives what parsing them together gives.
pub parse-append :
    (p : RequestParser) (r : Request) (xs ys : Bytes)
    → parse p r (xs ++ ys) ≡ resume (parse p r xs) ys
unfolding parse
parse-append p r [] ys = refl
parse-append p r (c ∷ xs) ys =
    let s = consume p r c in
    ap (continue s (xs ++ ys)) (parse-append s.1 s.2 xs ys)
    ∙ resume-continue s xs ys (parse s.1 s.2 xs)
