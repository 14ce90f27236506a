-- ===== src/Tests/Qi.antt =====
-- A concrete parser library that has the laws of the interface.
use camlispp.Prelude.{
  ℕ, zero, suc, ◌<◌, ◌≤◌, ◌≡◌, refl, sym, ap, ◌∙◌, [], ◌∷◌, arith, length, drop, ltb, if◌then◌else◌,
  Bool-cases, inl, inr, ltb→lt,
}
use camlispp.StdString.{Bytes, starts_with}
use camlispp.Qi.{Qi, Parser, Match, matched, failed, and_then, or_else, unless, one_char, one_eol}

module _ (A C : Type 0) (push : C → A → C) (new : A) (p : Parser A) where
  abbrev go_on : (C → Bytes → Match C) → C → Bytes → Match A → Match C
  go_on rest c s (failed a) = matched c s
  go_on rest c s (matched a t) =
      if ltb (length t) (length s) then rest (push c a) t else matched c s

  -- The loop on fuel; a subject that uses up nothing ends it.
  loop : ℕ → C → Bytes → Match C
  loop zero c s = matched c s
  loop (suc f) c s = go_on (loop f) c s (p new s)

  go_on_same :
      (g h : C → Bytes → Match C) (c : C) (s : Bytes) (m : Match A)
      → ((d : C) → (t : Bytes) → length t < length s → g d t ≡ h d t)
      → go_on g c s m ≡ go_on h c s m
  go_on_same g h c s (failed a) same = refl
  go_on_same g h c s (matched a t) same = elim (Bool-cases (ltb (length t) (length s))) [
    | inl less ↦ rw less (same (push c a) t (ltb→lt _ _ less))
    | inr more ↦ rw more refl
  ]

  go_on_none :
      (c : C) (s : Bytes) (m : Match A) → length s ≤ 0 → go_on (loop zero) c s m ≡ matched c s
  go_on_none c s (failed a) h = refl
  go_on_none c s (matched a t) h = ground arith

  loop-fuel : (f g : ℕ) (c : C) (s : Bytes) → length s ≤ f → length s ≤ g → loop f c s ≡ loop g c s
  unfolding loop
  loop-fuel zero zero c s h k = refl
  loop-fuel zero (suc g) c s h k = sym (
      go_on_same (loop g) (loop zero) c s (p new s) (λ d t less. absurd (omega arith))
      ∙ go_on_none c s (p new s) h)
  loop-fuel (suc f) zero c s h k =
      go_on_same (loop f) (loop zero) c s (p new s) (λ d t less. absurd (omega arith))
      ∙ go_on_none c s (p new s) k
  loop-fuel (suc f) (suc g) c s h k =
      go_on_same (loop f) (loop g) c s (p new s)
        (λ d t less. loop-fuel f g d t (omega arith) (omega arith))

  pub many : Parser C
  unfolding loop
  many c s = loop (length s) c s

  pub at_least_one : Parser C
  unfolding many
  at_least_one c s = elim (p new s) [ failed a ↦ failed c | matched a t ↦ many (push c a) t ]

  pub many_end : (c : C) (s : Bytes) (a : A) → p new s ≡ failed a → many c s ≡ matched c s
  unfolding many loop
  many_end c [] a e = refl
  many_end c (x ∷ s) a e = ap (go_on (loop (length s)) c (x ∷ s)) e

  pub many_more :
      (c : C) (s : Bytes) (a : A) (t : Bytes)
      → p new s ≡ matched a t
      → length t < length s
      → many c s ≡ many (push c a) t
  unfolding many loop
  many_more c [] a t e h = absurd (omega arith)
  many_more c (x ∷ s) a t e h =
      ap (go_on (loop (length s)) c (x ∷ s)) e
      ∙ ground (arith, loop-fuel (length s) (length t) (push c a) t)

  pub at_least_one_end :
      (c : C) (s : Bytes) (a : A) → p new s ≡ failed a → at_least_one c s ≡ failed c
  unfolding at_least_one
  at_least_one_end c s a e = rw (e, at_least_one) refl

  pub at_least_one_more :
      (c : C) (s : Bytes) (a : A) (t : Bytes)
      → p new s ≡ matched a t
      → length t < length s
      → at_least_one c s ≡ many (push c a) t
  unfolding at_least_one
  at_least_one_more c s a t e h = rw (e, at_least_one) refl

abbrev pub test_qi : Qi
test_qi = record {
  char_ = one_char;
  lit = λ A w a s. if starts_with s w then matched a (drop (length w) s) else failed a;
  eol = λ A a s. one_eol a s;
  seq = λ A p q a s. and_then (p a s) q;
  alt = λ A p q a s. or_else (p a s) (λ b. q b s);
  opt = λ A p a s. or_else (p a s) (λ b. matched b s);
  minus = λ A p q a s. unless (q tt s) (p a s) a;
  kleene = many;
  plus = at_least_one;
  char_law = λ set a s. refl;
  lit_law = λ A w a s. refl;
  eol_law = λ A a s. refl;
  seq_law = λ A p q a s. refl;
  alt_law = λ A p q a s. refl;
  opt_law = λ A p a s. refl;
  minus_law = λ A p q a s. refl;
  kleene_end = λ A C push new p c s a e. many_end A C push new p c s a e;
  kleene_more = λ A C push new p c s a t e h. many_more A C push new p c s a t e h;
  plus_end = λ A C push new p c s a e. at_least_one_end A C push new p c s a e;
  plus_more = λ A C push new p c s a t e h. at_least_one_more A C push new p c s a t e h;
}
