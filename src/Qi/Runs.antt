-- ===== src/Qi/Runs.antt =====
-- Runs of the parsers of qi: what follows from the laws of a sequence, and of the loops over
-- characters and over elements.
use camlispp.Prelude.{
  ℕ, ◌≡◌, refl, sym, ap, ◌∙◌, true, false, [], ◌∷◌, ◌++◌, arith, length, append_assoc, append-nil,
  drop,
}
use camlispp.StdString.{Bytes, starts_with}
use camlispp.Qi.{
  Qi, Parser, Match, matched, failed, element, on_first, on_second, snoc, and_then, or_else, unless,
}

-- The parser fails, whatever it leaves of the attribute.
abbrev pub Fails : {A : Type 0} → Match A → Type 0
Fails {A} m = (a : A) × (m ≡ failed a)

-- `p` takes the characters one by one, with `rest` behind them.
abbrev pub Takes : Parser ℕ → Bytes → Bytes → Type 0
Takes p [] rest = Unit
Takes p (x ∷ xs) rest = (p 0 (x ∷ (xs ++ rest)) ≡ matched x (xs ++ rest)) × Takes p xs rest

module _ (qi : Qi) where
  pub seq-matched :
      {A : Type 0}
      → (p q : Parser A) (a b : A) (s t : Bytes) → p a s ≡ matched b t
      → qi.seq A p q a s ≡ q b t
  seq-matched {A} p q a b s t e = qi.seq_law A p q a s ∙ ap (λ (m : Match A). and_then m q) e

  pub seq-Fails :
      {A : Type 0} → (p q : Parser A) (a : A) (s : Bytes) → Fails (p a s) → Fails (qi.seq A p q a s)
  seq-Fails {A} p q a s (b, e) = (b, qi.seq_law A p q a s ∙ ap (λ (m : Match A). and_then m q) e)

  pub seq-failed :
      {A : Type 0}
      → (p q : Parser A) (a b : A) (s : Bytes) → p a s ≡ failed b
      → qi.seq A p q a s ≡ failed b
  seq-failed {A} p q a b s e = qi.seq_law A p q a s ∙ ap (λ (m : Match A). and_then m q) e

  pub alt-failed :
      {A : Type 0}
      → (p q : Parser A) (a b : A) (s : Bytes) → p a s ≡ failed b
      → qi.alt A p q a s ≡ q b s
  alt-failed {A} p q a b s e = qi.alt_law A p q a s ∙ ap (λ (m : Match A). or_else m (λ c. q c s)) e

  pub alt-matched :
      {A : Type 0}
      → (p q : Parser A) (a b : A) (s t : Bytes) → p a s ≡ matched b t
      → qi.alt A p q a s ≡ matched b t
  alt-matched {A} p q a b s t e =
      qi.alt_law A p q a s ∙ ap (λ (m : Match A). or_else m (λ c. q c s)) e

  pub opt-failed :
      {A : Type 0}
      → (p : Parser A) (a b : A) (s : Bytes) → p a s ≡ failed b
      → qi.opt A p a s ≡ matched b s
  opt-failed {A} p a b s e =
      qi.opt_law A p a s ∙ ap (λ (m : Match A). or_else m (λ c. matched c s)) e

  pub lit-failed :
      (A : Type 0) (w : Bytes) (a : A) (s : Bytes)
      → starts_with s w ≡ false
      → qi.lit A w a s ≡ failed a
  lit-failed A w a s h = qi.lit_law A w a s ∙ rw h refl

  pub opt-matched :
      {A : Type 0}
      → (p : Parser A) (a b : A) (s t : Bytes) → p a s ≡ matched b t
      → qi.opt A p a s ≡ matched b t
  opt-matched {A} p a b s t e =
      qi.opt_law A p a s ∙ ap (λ (m : Match A). or_else m (λ c. matched c s)) e

  pub lit-matched :
      (A : Type 0) (w : Bytes) (a : A) (s : Bytes)
      → starts_with s w ≡ true
      → qi.lit A w a s ≡ matched a (drop (length w) s)
  lit-matched A w a s h = qi.lit_law A w a s ∙ rw h refl

  pub lit-Fails :
      (A : Type 0) (w : Bytes) (a : A) (s : Bytes)
      → starts_with s w ≡ false
      → Fails (qi.lit A w a s)
  lit-Fails A w a s h = (a, qi.lit_law A w a s ∙ rw h refl)

  pub minus-matched :
      {A : Type 0}
      → (p : Parser A) (q : Parser (Unit {0})) (a : A) (s : Bytes) → Fails (q tt s)
      → qi.minus A p q a s ≡ p a s
  minus-matched {A} p q a s (u, e) =
      qi.minus_law A p q a s ∙ ap (λ (m : Match (Unit {0})). unless m (p a s) a) e

  pub minus-Fails :
      {A : Type 0}
      → (p : Parser A) (q : Parser (Unit {0})) (a : A) (s : Bytes) (u : Unit {0}) (t : Bytes)
      → q tt s ≡ matched u t
      → Fails (qi.minus A p q a s)
  minus-Fails {A} p q a s u t e =
      (a, qi.minus_law A p q a s ∙ ap (λ (m : Match (Unit {0})). unless m (p a s) a) e)

  -- The loop over characters takes a text up to where its subject fails.
  pub kleene-Takes :
      (p : Parser ℕ) (c xs rest : Bytes)
      → Takes p xs rest
      → Fails (p 0 rest)
      → qi.kleene ℕ Bytes snoc 0 p c (xs ++ rest) ≡ matched (c ++ xs) rest
  kleene-Takes p c [] rest t (a, e) =
      qi.kleene_end ℕ Bytes snoc 0 p c rest a e
      ∙ ap (λ (d : Bytes). matched d rest) (sym (append-nil c))
  kleene-Takes p c (x ∷ xs) rest t f =
      qi.kleene_more ℕ Bytes snoc 0 p c (x ∷ (xs ++ rest)) x (xs ++ rest) t.0 (omega arith)
      ∙ kleene-Takes p (c ++ x ∷ []) xs rest t.1 f
      ∙ ap (λ (d : Bytes). matched d rest) (append_assoc c (x ∷ []) xs)

  pub plus-Takes :
      (p : Parser ℕ) (c : Bytes) (x : ℕ) (xs rest : Bytes)
      → Takes p (x ∷ xs) rest
      → Fails (p 0 rest)
      → qi.plus ℕ Bytes snoc 0 p c (x ∷ (xs ++ rest)) ≡ matched (c ++ x ∷ xs) rest
  plus-Takes p c x xs rest t f =
      qi.plus_more ℕ Bytes snoc 0 p c (x ∷ (xs ++ rest)) x (xs ++ rest) t.0 (omega arith)
      ∙ kleene-Takes p (c ++ x ∷ []) xs rest t.1 f
      ∙ ap (λ (d : Bytes). matched d rest) (append_assoc c (x ∷ []) xs)

  pub plus-Fails :
      (p : Parser ℕ) (c s : Bytes) → Fails (p 0 s) → Fails (qi.plus ℕ Bytes snoc 0 p c s)
  plus-Fails p c s (a, e) = (c, qi.plus_end ℕ Bytes snoc 0 p c s a e)

  pub element-matched :
      {A C : Type 0}
      → (push : C → A → C) (new : A) (p : Parser A) (c : C) (s : Bytes) (a : A) (t : Bytes)
      → p new s ≡ matched a t
      → element push new p c s ≡ matched (push c a) t
  element-matched push new p c s a t e = rw (e, element) refl

  pub on_first-matched :
      {A B : Type 0}
      → (p : Parser A) (a a' : A) (b : B) (s t : Bytes) → p a s ≡ matched a' t
      → on_first p (a, b) s ≡ matched (a', b) t
  on_first-matched p a a' b s t e = rw (e, on_first) refl

  pub on_second-matched :
      {A B : Type 0}
      → (p : Parser B) (a : A) (b b' : B) (s t : Bytes) → p b s ≡ matched b' t
      → on_second p (a, b) s ≡ matched (a, b') t
  on_second-matched p a b b' s t e = rw (e, on_second) refl

  pub element-Fails :
      {A C : Type 0}
      → (push : C → A → C) (new : A) (p : Parser A) (c : C) (s : Bytes) → Fails (p new s)
      → Fails (element push new p c s)
  element-Fails push new p c s (a, e) = (c, rw (e, element) refl)
