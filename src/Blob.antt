-- ===== src/Blob.antt =====
-- blobserver/src/Blob.cpp and Blob.hpp: a blob's record, and the set of its texts, which is
-- ordered by strcmp on the C strings.
pub mod Hashes
use camlispp.Prelude.{ℕ, ◌+◌, ◌%◌, ◌^◌, Bool, true, false, not, List, [], ◌∷◌, if◌then◌else◌}
use camlispp.StdString.{Bytes, str_lt, c_str}

-- CaseSensitiveCompare
unfoldable pub strcmp_lt : Bytes → Bytes → Bool
unfolding str_lt c_str
strcmp_lt a b = str_lt (c_str a) (c_str b)

abbrev pub Sset : Type 0
Sset = List Bytes

-- sset::insert, which keeps an element that is already there
unfoldable pub sset_insert : Bytes → Sset → Sset
unfolding strcmp_lt
sset_insert h [] = h ∷ []
sset_insert h (x ∷ xs) =
    let rest = sset_insert h xs in
    if strcmp_lt h x then h ∷ x ∷ xs else if strcmp_lt x h then x ∷ rest else x ∷ xs

-- sset::find != end
unfoldable pub sset_contains : Bytes → Sset → Bool
unfolding strcmp_lt
sset_contains h [] = false
sset_contains h (x ∷ xs) =
    let rest = sset_contains h xs in
    if strcmp_lt h x then false else if strcmp_lt x h then rest else true

-- `size` is an int: the bit pattern of its 32 bits.
pub record Blob : Type 0 where
  pub file_path : Bytes
  pub size : ℕ
  pub hashes : Sset

unfoldable pub new_blob : Bytes → Blob
new_blob path = record { file_path = path; size = 0; hashes = [] }

-- Blob::size(int), called with a size_t
unfoldable pub set_size : ℕ → Blob → Blob
set_size n b = record b { size = n % 2 ^ 32 }

unfoldable pub add_hash : Bytes → Blob → Blob
unfolding sset_insert
add_hash hash b = record b { hashes = sset_insert hash b.hashes }

unfoldable pub is_match : Bytes → Blob → Bool
unfolding sset_contains
is_match hash b = sset_contains hash b.hashes
