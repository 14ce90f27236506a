-- ===== src/StdString/Laws.antt =====
-- Laws of the string operations.
use camlispp.Prelude.{
  ℕ, ◌≤◌, ◌&&◌, ◌+◌, ◌≡◌, ◌≢◌, ◌↔◌, refl, ap, true, List, [], ◌∷◌, ◌++◌, arith, length, take, drop,
  All,
}
use camlispp.StdString.Base.{Bytes, starts_with, str_eq, find_from, find, npos, c_str}

pub str_eq_iff : (a b : Bytes) → (str_eq a b ≡ true) ↔ (a ≡ b)
unfolding str_eq
str_eq_iff (x ∷ a) (y ∷ b) = ground (arith, str_eq_iff a b)
str_eq_iff _ _ = ground arith

pub str_eq_refl : (a : Bytes) → str_eq a a ≡ true
str_eq_refl a = (str_eq_iff a a).1 refl

-- Searching for one byte that does not stand in the first part.
pub find_from_byte :
    (i c : ℕ) (s rest : Bytes)
    → All (λ x. x ≢ c) s
    → find_from i (s ++ c ∷ rest) (c ∷ []) ≡ i + length s
unfolding find_from
find_from_byte i c [] rest h = ground arith
find_from_byte i c (x ∷ s) rest h = ground (arith, find_from_byte (i + 1) c s rest h.1)

pub find_byte :
    (c : ℕ) (s rest : Bytes) → All (λ x. x ≢ c) s → find (s ++ c ∷ rest) (c ∷ []) ≡ length s
unfolding find
find_byte c s rest h = omega (arith, find_from_byte 0 c s rest h)

pub find_from_absent : (i c : ℕ) (s : Bytes) → All (λ x. x ≢ c) s → find_from i s (c ∷ []) ≡ npos
unfolding find_from
find_from_absent i c [] h = refl
find_from_absent i c (x ∷ s) h = ground (arith, find_from_absent (i + 1) c s h.1)

pub find_absent : (c : ℕ) (s : Bytes) → All (λ x. x ≢ c) s → find s (c ∷ []) ≡ npos
unfolding find
find_absent c s h = find_from_absent 0 c s h

-- A text that starts with a byte that is not there is not found.
pub find_from_no_first :
    (i c : ℕ) (cs s : Bytes) → All (λ x. x ≢ c) s → find_from i s (c ∷ cs) ≡ npos
unfolding find_from
find_from_no_first i c cs [] h = refl
find_from_no_first i c cs (x ∷ s) h = ground (arith, find_from_no_first (i + 1) c cs s h.1)

pub find_no_first : (c : ℕ) (cs s : Bytes) → All (λ x. x ≢ c) s → find s (c ∷ cs) ≡ npos
unfolding find
find_no_first c cs s h = find_from_no_first 0 c cs s h

pub take-length-append {ℓ} : {A : Type ℓ} (xs ys : List A) → take (length xs) (xs ++ ys) ≡ xs
take-length-append [] ys = refl
take-length-append (x ∷ xs) ys = ap (◌∷◌ x) (take-length-append xs ys)

pub drop-length-append {ℓ} : {A : Type ℓ} (xs ys : List A) → drop (length xs) (xs ++ ys) ≡ ys
drop-length-append [] ys = refl
drop-length-append (x ∷ xs) ys = drop-length-append xs ys

-- A C string made of a text with no NUL shows all of it.
pub c_str_whole : (s : Bytes) → All (λ x. x ≢ 0) s → c_str s ≡ s
unfolding c_str
c_str_whole [] h = refl
c_str_whole (x ∷ s) h = ground (arith, c_str_whole s h.1)

pub c_str_append_nul : (s rest : Bytes) → All (λ x. x ≢ 0) s → c_str (s ++ 0 ∷ rest) ≡ s
unfolding c_str
c_str_append_nul [] rest h = refl
c_str_append_nul (x ∷ s) rest h = ground (arith, c_str_append_nul s rest h.1)

pub starts_with-append_self : (w rest : Bytes) → starts_with (w ++ rest) w ≡ true
unfolding starts_with
starts_with-append_self [] rest = refl
starts_with-append_self (x ∷ w) rest = ground (arith, starts_with-append_self w rest)

-- A text that is there whole is tested without what follows.
pub starts_with-append :
    (s rest w : Bytes) → length w ≤ length s → starts_with (s ++ rest) w ≡ starts_with s w
unfolding starts_with
starts_with-append s rest [] h = refl
starts_with-append [] rest (y ∷ w) h = absurd (omega arith)
starts_with-append (x ∷ s) rest (y ∷ w) h = ground (arith, starts_with-append s rest w)

-- A text of two pieces is tested piece by piece.
pub starts_with-pieces :
    (s u w : Bytes)
    → starts_with s (u ++ w) ≡ (starts_with s u && starts_with (drop (length u) s) w)
unfolding starts_with
starts_with-pieces s [] w = refl
starts_with-pieces [] (x ∷ u) w = refl
starts_with-pieces (y ∷ s) (x ∷ u) w = ground (arith, starts_with-pieces s u w)
