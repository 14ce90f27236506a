-- ===== src/Http/RequestParser/Bounds.antt =====
-- The body: at most 16 MiB, and as long as the content-length that was read.
use camlispp.Prelude.{
  ℕ, ◌+◌, ◌≤◌, ◌<◌, ◌≡◌, refl, ◌⊎◌, false, [], ◌∷◌, arith, length, length-append,
}
use camlispp.StdString.{Bytes}
use camlispp.Http.Request.{Request, int_positive}
use camlispp.Http.RequestParser.Defs.{
  State, body, RequestParser, is_true, is_false, indeterminate, Step, Parsed, consume, consume_in,
  continue, parse, initial, max_content, content_length,
}

-- What holds while input is read: no content before the body, and in the body the bytes read and the bytes
-- to come make the content length, which is positive and at most 16 MiB.
abbrev pub BodyInv : State → ℕ → Request → Type 0
BodyInv body left r =
    (0 < left) × (length r.content + left ≡ content_length r) × (content_length r ≤ max_content)
BodyInv _ left r = r.content ≡ []

-- A finished request: a body of the content length, at most 16 MiB, or no body and a content
-- length that is not positive.
abbrev pub IsComplete : Request → Type 0
IsComplete r =
    (0 < length r.content)
      × (length r.content ≡ content_length r)
      × (content_length r ≤ max_content)
    ⊎ (r.content ≡ []) × (int_positive (content_length r) ≡ false)

abbrev StepInv : Step → Type 0
StepInv (indeterminate, p, r) = BodyInv p.state p.body_bytes r
StepInv (is_true, p, r) = IsComplete r
StepInv (is_false, p, r) = Unit

consume_in-StepInv :
    (s : State) (p : RequestParser) (r : Request) (c : ℕ)
    → p.state ≡ s
    → BodyInv s p.body_bytes r
    → StepInv (consume_in s p r c)
unfolding consume_in content_length
consume_in-StepInv body p r c e h = ground (arith, length-append r.content (c ∷ []))
consume_in-StepInv _ p r c e h = ground arith

abbrev ParsedInv : Parsed → Type 0
ParsedInv d = elim d.result [
  | is_true ↦ IsComplete d.request
  | is_false ↦ Unit
  | indeterminate ↦ BodyInv d.parser.state d.parser.body_bytes d.request
]

continue-ParsedInv :
    (s : Step) (rest : Bytes) (more : Parsed)
    → StepInv s
    → (s.0 ≡ indeterminate → ParsedInv more)
    → ParsedInv (continue s rest more)
continue-ParsedInv (indeterminate, p, r) rest more h k = k refl
continue-ParsedInv (is_true, p, r) rest more h k = h
continue-ParsedInv (is_false, p, r) rest more h k = tt

step_indeterminate :
    (s : Step) → StepInv s → s.0 ≡ indeterminate → BodyInv s.1.state s.1.body_bytes s.2
step_indeterminate (indeterminate, p, r) h e = h
step_indeterminate (is_true, p, r) h e = absurd (cc)
step_indeterminate (is_false, p, r) h e = absurd (cc)

parse-ParsedInv :
    (input : Bytes) (p : RequestParser) (r : Request)
    → BodyInv p.state p.body_bytes r
    → ParsedInv (parse p r input)
unfolding parse
parse-ParsedInv [] p r h = h
parse-ParsedInv (c ∷ cs) p r h =
    let now : StepInv (consume p r c) = unfold consume in consume_in-StepInv p.state p r c refl h in
    let s = consume p r c in
    continue-ParsedInv s cs (parse s.1 s.2 cs) now
      λ e. parse-ParsedInv cs s.1 s.2 (step_indeterminate s now e)

is_true-ParsedInv : (d : Parsed) → ParsedInv d → d.result ≡ is_true → IsComplete d.request
is_true-ParsedInv d h e = rw e at h

-- A request that the parser accepts, from its initial state and a request with no content, has
-- either a body as long as its content-length says, which is then at most 16 MiB, or no body, and
-- then its content-length is not positive.
pub parse-IsComplete :
    (uninitialised : ℕ) (r : Request) (input : Bytes)
    → r.content ≡ []
    → (parse (initial uninitialised) r input).result ≡ is_true
    → IsComplete (parse (initial uninitialised) r input).request
parse-IsComplete n r input h e =
    is_true-ParsedInv (parse (initial n) r input) (parse-ParsedInv input (initial n) r h) e
