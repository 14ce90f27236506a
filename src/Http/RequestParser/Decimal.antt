-- ===== src/Http/RequestParser/Decimal.antt =====
-- What is written in decimal is read back by atoi.
use camlispp.Prelude.{
  ℕ, zero, suc, ◌+◌, ◌/◌, ◌%◌, ◌^◌, ◌<◌, ◌≡◌, ◌≢◌, refl, sym, subst, ap, ◌∙◌, true, [], ◌∷◌, arith,
  All,
}
use camlispp.StdString.{Bytes, decimal, decimal_onto, c_str, c_str_whole}
use camlispp.Http.RequestParser.Atoi.{is_digit, read_digits, atoi}

read_digits-decimal_onto :
    (f n : ℕ) (rest : Bytes) → n < f → read_digits 0 (decimal_onto f n rest) ≡ read_digits n rest
unfolding decimal_onto read_digits
read_digits-decimal_onto zero n rest h = elim h [ ]
read_digits-decimal_onto (suc f) n rest h =
    ground (arith, read_digits-decimal_onto f (n / 10) ((b'0' + n % 10) ∷ rest))

abbrev pub IsDigits : Bytes → Type 0
IsDigits s = All (λ c. is_digit c ≡ true) s

decimal_onto-IsDigits : (f n : ℕ) (rest : Bytes) → IsDigits rest → IsDigits (decimal_onto f n rest)
unfolding decimal_onto
decimal_onto-IsDigits zero n rest h = h
decimal_onto-IsDigits (suc f) n rest h =
    ground (arith, decimal_onto-IsDigits f (n / 10) ((b'0' + n % 10) ∷ rest))

digits_no_nul : (s : Bytes) → IsDigits s → All (λ c. c ≢ 0) s
digits_no_nul [] h = tt
digits_no_nul (c ∷ s) h = (ground arith, digits_no_nul s h.1)

atoi_digits : (s : Bytes) → IsDigits s → read_digits 0 s < 2 ^ 31 → atoi s ≡ read_digits 0 s
unfolding atoi
atoi_digits [] h l = unfold c_str read_digits in refl
atoi_digits (c ∷ s) h l = rw (c_str_whole (c ∷ s) (digits_no_nul (c ∷ s) h)) (ground arith)

read_digits-whole : (n : ℕ) → read_digits 0 (decimal_onto (suc n) n []) ≡ n
unfolding read_digits
read_digits-whole n = read_digits-decimal_onto (suc n) n [] (omega arith)

decimal_lem : (n : ℕ) → decimal n ≡ decimal_onto (suc n) n []
unfolding decimal
decimal_lem n = refl

-- A number below 2 ^ 31, written in decimal, is read back by atoi.
pub atoi-decimal : (n : ℕ) → n < 2 ^ 31 → atoi (decimal n) ≡ n
atoi-decimal n h =
    let s = decimal_onto (suc n) n [] in
    ap atoi (decimal_lem n)
    ∙ atoi_digits s (decimal_onto-IsDigits (suc n) n [] tt) (rw read_digits-whole h)
    ∙ read_digits-whole n

-- Different numbers have different digits.
pub decimal_injective : (n m : ℕ) → decimal n ≡ decimal m → n ≡ m
decimal_injective n m e =
    sym (read_digits-whole n)
    ∙ ap (read_digits 0) (sym (decimal_lem n) ∙ e ∙ decimal_lem m)
    ∙ read_digits-whole m

pub decimal-IsDigits : (n : ℕ) → IsDigits (decimal n)
decimal-IsDigits n = subst IsDigits (sym (decimal_lem n)) (decimal_onto-IsDigits (suc n) n [] tt)
