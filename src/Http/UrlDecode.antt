-- ===== src/Http/UrlDecode.antt =====
-- request_handler::url_decode of blobserver/src/request_handler.cpp.
pub mod RoundTrip
pub mod Types
use camlispp.Prelude.{
  ℕ, ◌+◌, ◌-◌, ◌*◌, ◌%◌, Bool, true, false, ◌&&◌, ◌||◌, List, [], ◌∷◌, Option, none, some, leb,
  ◌==◌, if◌then◌else◌,
}
use camlispp.StdString.{Bytes}

abbrev pub is_space : ℕ → Bool
is_space c = c == b' ' || (leb 9 c && leb c 13)

abbrev hex_digit : ℕ → Option ℕ
hex_digit c =
    if leb b'0' c && leb c b'9'
    then some (c - b'0')
    else if leb b'A' c && leb c b'F'
    then some (c - b'A' + 10)
    else if leb b'a' c && leb c b'f'
    then some (c - b'a' + 10)
    else none

-- The digits in front; none if there is not one. `seen` is the number so far.
unfoldable pub hex_digits : Option ℕ → Bytes → Option ℕ
hex_digits seen [] = seen
hex_digits seen (c ∷ cs) = elim (hex_digit c) [
  | none ↦ seen
  | some d ↦ hex_digits (some (elim seen [ none ↦ 0 | some n ↦ n ] * 16 + d)) cs
]

-- A prefix 0x is taken off, and wants a digit behind it.
unfoldable pub hex_number : Bytes → Option ℕ
unfolding hex_digits
hex_number [] = none
hex_number (c ∷ []) = hex_digits none (c ∷ [])
hex_number (c ∷ x ∷ cs) =
    if c == b'0' && (x == b'x' || x == b'X')
    then hex_digits none cs
    else hex_digits none (c ∷ x ∷ cs)

-- the low eight bits of the negative of an int
abbrev negated : Option ℕ → Option ℕ
negated none = none
negated (some n) = some ((256 - n % 256) % 256)

abbrev low_byte : Option ℕ → Option ℕ
low_byte none = none
low_byte (some n) = some (n % 256)

unfoldable pub signed_hex : Bytes → Option ℕ
unfolding hex_number
signed_hex [] = none
signed_hex (c ∷ cs) =
    if c == b'-'
    then negated (hex_number cs)
    else if c == b'+'
    then low_byte (hex_number cs)
    else low_byte (hex_number (c ∷ cs))

-- `is >> std::hex >> value` on the two characters behind a percent sign, and the cast of the
-- value to a char: white space in front is skipped, a sign is read, and what stands behind the
-- digits is left unread.
unfoldable pub hex_byte : ℕ → ℕ → Option ℕ
unfolding signed_hex
hex_byte a b =
    if is_space a
    then (if is_space b then none else signed_hex (b ∷ []))
    else signed_hex (a ∷ b ∷ [])

abbrev pub plain : ℕ → ℕ
plain c = if c == b'+' then b' ' else c

abbrev pub push : ℕ → Option Bytes → Option Bytes
push c none = none
push c (some s) = some (c ∷ s)

abbrev pub push_hex : Option ℕ → Option Bytes → Option Bytes
push_hex none rest = none
push_hex (some c) rest = push c rest

-- `none` is the result false; the caller does not look at `out` then.
unfoldable pub url_decode : Bytes → Option Bytes
unfolding hex_byte
url_decode [] = some []
url_decode (c ∷ []) = if c == b'%' then none else some (plain c ∷ [])
url_decode (c ∷ a ∷ []) =
    let rest = url_decode (a ∷ []) in if c == b'%' then none else push (plain c) rest
url_decode (c ∷ a ∷ b ∷ cs) =
    let decoded = push_hex (hex_byte a b) (url_decode cs) in
    let rest = push (plain c) (url_decode (a ∷ b ∷ cs)) in if c == b'%' then decoded else rest
