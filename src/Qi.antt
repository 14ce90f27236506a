-- ===== src/Qi.antt =====
-- boost::spirit::qi, as the grammars of blobserver/src use it: an interface with the documented
-- behaviour of its parsers. A parser is given the attribute and the input; it matches, with the
-- attribute after it and the input that is left, or fails, which gives the input back but leaves
-- what it has written to the attribute.
pub mod Runs
use camlispp.Prelude.{
  ℕ, ◌<◌, ◌≡◌, Bool, List, [], ◌∷◌, ◌++◌, Option, none, some, if◌then◌else◌, length, drop, ◌==◌,
}
use camlispp.StdString.{Bytes, starts_with}

pub data Match (A : Type 0) : Type 0 where
  matched : A → Bytes → Match A
  failed : A → Match A

abbrev pub Parser : Type 0 → Type 0
Parser A = A → Bytes → Match A

module _ {A : Type 0} where
  abbrev pub and_then : Match A → Parser A → Match A
  and_then (matched a rest) q = q a rest
  and_then (failed a) q = failed a

  abbrev pub or_else : Match A → (A → Match A) → Match A
  or_else (matched a rest) k = matched a rest
  or_else (failed a) k = k a

  -- a test whose attribute is not used
  abbrev pub unless : Match (Unit {0}) → Match A → A → Match A
  unless (matched _ rest) m a = failed a
  unless (failed _) m a = m

  -- one "\r\n", "\n" or "\r"
  abbrev pub one_eol : A → Bytes → Match A
  one_eol a [] = failed a
  one_eol a (c ∷ []) =
      if c == b'\r' then matched a [] else if c == b'\n' then matched a [] else failed a
  one_eol a (c ∷ d ∷ cs) =
      if c == b'\r'
      then (if d == b'\n' then matched a cs else matched a (d ∷ cs))
      else if c == b'\n'
      then matched a (d ∷ cs)
      else failed a

-- one character of a set
abbrev pub one_char : (ℕ → Bool) → ℕ → Bytes → Match ℕ
one_char set a [] = failed a
one_char set a (c ∷ cs) = if set c then matched c cs else failed a

-- The parsers, with a law for each. `kleene` and `plus` are given how a container takes an
-- element, and the element's first value; their subject must use up input where it matches.
pub record Qi : Type 1 where
  pub char_ : (ℕ → Bool) → Parser ℕ
  pub lit : (A : Type 0) → Bytes → Parser A
  pub eol : (A : Type 0) → Parser A
  pub seq : (A : Type 0) → Parser A → Parser A → Parser A
  pub alt : (A : Type 0) → Parser A → Parser A → Parser A
  pub opt : (A : Type 0) → Parser A → Parser A
  pub minus : (A : Type 0) → Parser A → Parser (Unit {0}) → Parser A
  pub kleene : (A C : Type 0) → (C → A → C) → A → Parser A → Parser C
  pub plus : (A C : Type 0) → (C → A → C) → A → Parser A → Parser C
  pub char_law : (set : ℕ → Bool) (a : ℕ) (s : Bytes) → char_ set a s ≡ one_char set a s
  pub lit_law :
      (A : Type 0) (w : Bytes) (a : A) (s : Bytes)
      → lit A w a s ≡ (if starts_with s w then matched a (drop (length w) s) else failed a)
  pub eol_law : (A : Type 0) (a : A) (s : Bytes) → eol A a s ≡ one_eol a s
  pub seq_law :
      (A : Type 0) (p q : Parser A) (a : A) (s : Bytes) → seq A p q a s ≡ and_then (p a s) q
  pub alt_law :
      (A : Type 0) (p q : Parser A) (a : A) (s : Bytes)
      → alt A p q a s ≡ or_else (p a s) (λ b. q b s)
  pub opt_law :
      (A : Type 0) (p : Parser A) (a : A) (s : Bytes)
      → opt A p a s ≡ or_else (p a s) (λ b. matched b s)
  pub minus_law :
      (A : Type 0) (p : Parser A) (q : Parser (Unit {0})) (a : A) (s : Bytes)
      → minus A p q a s ≡ unless (q tt s) (p a s) a
  pub kleene_end :
      (A C : Type 0) (push : C → A → C) (new : A) (p : Parser A) (c : C) (s : Bytes) (a : A)
      → p new s ≡ failed a
      → kleene A C push new p c s ≡ matched c s
  pub kleene_more :
      (A C : Type 0) (push : C → A → C) (new : A) (p : Parser A) (c : C) (s : Bytes) (a : A)
      (t : Bytes)
      → p new s ≡ matched a t
      → length t < length s
      → kleene A C push new p c s ≡ kleene A C push new p (push c a) t
  pub plus_end :
      (A C : Type 0) (push : C → A → C) (new : A) (p : Parser A) (c : C) (s : Bytes) (a : A)
      → p new s ≡ failed a
      → plus A C push new p c s ≡ failed c
  pub plus_more :
      (A C : Type 0) (push : C → A → C) (new : A) (p : Parser A) (c : C) (s : Bytes) (a : A)
      (t : Bytes)
      → p new s ≡ matched a t
      → length t < length s
      → plus A C push new p c s ≡ kleene A C push new p (push c a) t

-- An element of a container in a sequence: it is added if it matches.
abbrev pub element : {A C : Type 0} → (C → A → C) → A → Parser A → Parser C
element push new p c s = elim (p new s) [ matched a t ↦ matched (push c a) t | failed a ↦ failed c ]

-- The parts of a pair in a sequence.
abbrev pub on_first : {A B : Type 0} → Parser A → Parser (A × B)
on_first p (a, b) s = elim (p a s) [ matched a' t ↦ matched (a', b) t | failed a' ↦ failed (a', b) ]

abbrev pub on_second : {A B : Type 0} → Parser B → Parser (A × B)
on_second p (a, b) s = elim (p b s) [
  | matched b' t ↦ matched (a, b') t
  | failed b' ↦ failed (a, b')
]

-- A parser whose attribute is not used.
abbrev pub unused : {A : Type 0} → A → Parser A → Parser (Unit {0})
unused new p u s = elim (p new s) [ matched a t ↦ matched u t | failed a ↦ failed u ]

-- push_back of a vector or a string
abbrev pub snoc : {A : Type 0} → List A → A → List A
snoc xs x = xs ++ (x ∷ [])

-- qi::parse, with the attribute as it is after a parse that returns true
abbrev pub parse_with : {A : Type 0} → Parser A → A → Bytes → Option A
parse_with p new s = elim (p new s) [ matched a t ↦ some a | failed a ↦ none ]
