-- ===== src/StdString/Base.antt =====
-- The operations of std::string and boost::algorithm that the program calls, and the C string
-- functions under them.
use Prim.Native.Char.{code}
use Prim.Native.String.{String}
use camlispp.Prelude.{
  ℕ, ◌+◌, ◌-◌, ◌%◌, ◌^◌, ◌<◌, Bool, true, false, ◌&&◌, List, [], ◌∷◌, map, leb, ◌==◌, if◌then◌else◌,
  take, drop,
}

abbrev pub Bytes : Type 0
Bytes = List ℕ

-- The bytes of an ASCII literal.
abbrev pub bytes : String → Bytes
bytes String.[] = []
bytes (String.◌∷◌ c s) = code c ∷ bytes s

-- size_t and unsigned on the platform modelled.
abbrev pub npos : ℕ
npos = 2 ^ 64 - 1

abbrev pub to_unsigned : ℕ → ℕ
to_unsigned n = n % 2 ^ 32

-- operator==
unfoldable pub str_eq : Bytes → Bytes → Bool
str_eq [] [] = true
str_eq (x ∷ xs) (y ∷ ys) = x == y && str_eq xs ys
str_eq _ _ = false

-- operator<, which compares as unsigned char
unfoldable pub str_lt : Bytes → Bytes → Bool
str_lt [] [] = false
str_lt [] (y ∷ ys) = true
str_lt (x ∷ xs) [] = false
str_lt (x ∷ xs) (y ∷ ys) = let rest = str_lt xs ys in if x == y then rest else leb x y

-- boost::starts_with
unfoldable pub starts_with : Bytes → Bytes → Bool
starts_with s [] = true
starts_with [] (y ∷ ys) = false
starts_with (x ∷ xs) (y ∷ ys) = x == y && starts_with xs ys

-- boost::ends_with for a text of one byte
unfoldable pub ends_with : Bytes → ℕ → Bool
ends_with [] b = false
ends_with (x ∷ []) b = x == b
ends_with (x ∷ y ∷ xs) b = ends_with (y ∷ xs) b

-- find: the least position at which the text stands, counted from `i`, or `npos`
unfoldable pub find_from : ℕ → Bytes → Bytes → ℕ
unfolding starts_with
find_from i [] sub = if starts_with [] sub then i else npos
find_from i (x ∷ xs) sub =
    let rest = find_from (i + 1) xs sub in if starts_with (x ∷ xs) sub then i else rest

unfoldable pub find : Bytes → Bytes → ℕ
unfolding find_from
find s sub = find_from 0 s sub

-- find_last_of for a set of one byte
unfoldable pub last_from : ℕ → ℕ → Bytes → ℕ → ℕ
last_from i found [] b = found
last_from i found (x ∷ xs) b = last_from (i + 1) (if x == b then i else found) xs b

unfoldable pub find_last_of : Bytes → ℕ → ℕ
unfolding last_from
find_last_of s b = last_from 0 npos s b

-- substr(pos) and substr(pos, n); positions past the end do not occur (std::out_of_range)
abbrev pub substr : Bytes → ℕ → Bytes
substr s pos = drop pos s

abbrev pub substr_n : Bytes → ℕ → ℕ → Bytes
substr_n s pos n = take n (drop pos s)

-- what a C string made by c_str() shows: the bytes before the first NUL
unfoldable pub c_str : Bytes → Bytes
c_str [] = []
c_str (x ∷ xs) = let rest = c_str xs in if x == 0 then [] else x ∷ rest

-- tolower in the C locale, and boost::to_lower_copy
unfoldable pub to_lower : ℕ → ℕ
to_lower c = if leb b'A' c && leb c b'Z' then c + 32 else c

unfoldable pub to_lower_copy : Bytes → Bytes
unfolding to_lower
to_lower_copy s = map to_lower s

-- every element is a byte
abbrev pub IsBytes : Bytes → Type 0
IsBytes [] = Unit
IsBytes (x ∷ xs) = (x < 256) × IsBytes xs
