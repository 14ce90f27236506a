-- ===== src/Http/RequestParser/Atoi.antt =====
-- atoi of the C library, as glibc has it: strtol, which stops at the greatest and the least long,
-- and the low 32 bits of that.
use camlispp.Prelude.{
  ℕ, ◌+◌, ◌-◌, ◌*◌, ◌%◌, ◌^◌, Bool, ◌&&◌, ◌||◌, [], ◌∷◌, leb, ltb, ◌==◌, if◌then◌else◌,
}
use camlispp.StdString.{Bytes, c_str}

abbrev pub is_digit : ℕ → Bool
is_digit c = leb b'0' c && leb c b'9'

-- isspace in the C locale
abbrev pub is_space : ℕ → Bool
is_space c = c == b' ' || (leb 9 c && leb c 13)

-- the digits in front, onto a number
unfoldable pub read_digits : ℕ → Bytes → ℕ
read_digits acc [] = acc
read_digits acc (c ∷ cs) =
    let more = read_digits (acc * 10 + (c - b'0')) cs in if is_digit c then more else acc

abbrev pub at_most : ℕ → ℕ → ℕ
at_most limit n = if ltb limit n then limit else n

-- an int's bit pattern
unfoldable pub read_signed : Bytes → ℕ
unfolding read_digits
read_signed [] = 0
read_signed (c ∷ cs) =
    if c == b'-'
    then (2 ^ 64 - at_most (2 ^ 63) (read_digits 0 cs)) % 2 ^ 32
    else if c == b'+'
    then at_most (2 ^ 63 - 1) (read_digits 0 cs) % 2 ^ 32
    else at_most (2 ^ 63 - 1) (read_digits 0 (c ∷ cs)) % 2 ^ 32

unfoldable pub skip_space : Bytes → Bytes
skip_space [] = []
skip_space (c ∷ cs) = let rest = skip_space cs in if is_space c then rest else c ∷ cs

unfoldable pub atoi : Bytes → ℕ
unfolding c_str skip_space read_signed
atoi s = read_signed (skip_space (c_str s))
