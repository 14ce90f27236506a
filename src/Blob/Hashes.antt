-- ===== src/Blob/Hashes.antt =====
-- What a blob matches after a hash is added.
use camlispp.Prelude.{◌≡◌, ◌≢◌, refl, true, false, [], ◌∷◌, arith, inl, inr, Bool-cases, ◌||◌}
use camlispp.StdString.{Bytes, c_str, str_eq, str_eq_iff, str_lt_irrefl, str_lt_trans, str_lt_total}
use camlispp.Blob.{Sset, strcmp_lt, sset_insert, sset_contains, Blob, add_hash, is_match}

abbrev IsAbove : Bytes → Sset → Type 0
IsAbove a [] = Unit
IsAbove a (x ∷ xs) = (strcmp_lt a x ≡ true) × IsAbove a xs

abbrev pub IsOrdered : Sset → Type 0
IsOrdered [] = Unit
IsOrdered (x ∷ xs) = IsAbove x xs × IsOrdered xs

strcmp_lt_trans :
    (a b c : Bytes) → strcmp_lt a b ≡ true → strcmp_lt b c ≡ true → strcmp_lt a c ≡ true
unfolding strcmp_lt
strcmp_lt_trans a b c = str_lt_trans (c_str a) (c_str b) (c_str c)

strcmp_lt_irrefl : (a : Bytes) → strcmp_lt a a ≡ false
unfolding strcmp_lt
strcmp_lt_irrefl a = str_lt_irrefl (c_str a)

IsAbove-trans : (a b : Bytes) (s : Sset) → strcmp_lt a b ≡ true → IsAbove b s → IsAbove a s
IsAbove-trans a b [] h t = tt
IsAbove-trans a b (x ∷ s) h t = (strcmp_lt_trans a b x h t.0, IsAbove-trans a b s h t.1)

IsAbove-insert :
    (a h : Bytes) (s : Sset) → strcmp_lt a h ≡ true → IsAbove a s → IsAbove a (sset_insert h s)
unfolding sset_insert
IsAbove-insert a h [] l t = (l, tt)
IsAbove-insert a h (x ∷ s) l t = ground (arith, IsAbove-insert a h s l t.1)

pub sset_insert-IsOrdered : (h : Bytes) (s : Sset) → IsOrdered s → IsOrdered (sset_insert h s)
unfolding sset_insert
sset_insert-IsOrdered h [] o = (tt, tt)
sset_insert-IsOrdered h (x ∷ s) o =
    ground (arith, IsAbove-trans h x s, IsAbove-insert x h s, sset_insert-IsOrdered h s o.1)

sset_contains_above : (h : Bytes) (s : Sset) → IsAbove h s → sset_contains h s ≡ false
unfolding sset_contains
sset_contains_above h [] a = refl
sset_contains_above h (x ∷ s) a = ground arith

strcmp_lt_total : (a b : Bytes) → strcmp_lt a b ≡ false → strcmp_lt b a ≡ false → c_str a ≡ c_str b
unfolding strcmp_lt
strcmp_lt_total a b = str_lt_total (c_str a) (c_str b)

-- The comparison sees only the C strings.
strcmp_lt-c_str :
    (a b x : Bytes)
    → c_str a ≡ c_str b
    → (strcmp_lt a x ≡ strcmp_lt b x) × (strcmp_lt x a ≡ strcmp_lt x b)
unfolding strcmp_lt
strcmp_lt-c_str a b x e = (rw e, rw e)

sset_contains-insert_same :
    (h j : Bytes) (s : Sset) → c_str h ≡ c_str j → sset_contains j (sset_insert h s) ≡ true
unfolding sset_contains sset_insert
sset_contains-insert_same h j [] e = ground (
  arith,
  strcmp_lt-c_str h j h e,
  strcmp_lt-c_str h j j e,
  strcmp_lt_irrefl h,
  strcmp_lt_irrefl j,
)
sset_contains-insert_same h j (x ∷ s) e = ground (
  arith,
  strcmp_lt-c_str h j h e,
  strcmp_lt-c_str h j x e,
  strcmp_lt_irrefl h,
  sset_contains-insert_same h j s e,
)

sset_contains-insert_other :
    (h j : Bytes) (s : Sset)
    → c_str h ≢ c_str j
    → IsOrdered s
    → sset_contains j (sset_insert h s) ≡ sset_contains j s
unfolding sset_contains sset_insert
sset_contains-insert_other h j [] e o = ground (arith, strcmp_lt_total h j)
sset_contains-insert_other h j (x ∷ s) e o =
    ground
      (arith, strcmp_lt_total h j, strcmp_lt_trans j h x, sset_contains-insert_other h j s e o.1)

-- Adding a text to a blob whose texts are in order keeps them in order, and the blob then matches
-- exactly what it matched before and the texts with the same C string as the one added.
pub is_match-add_hash :
    (h j : Bytes) (b : Blob)
    → IsOrdered b.hashes
    → IsOrdered (add_hash h b).hashes
      × (is_match j (add_hash h b) ≡ (str_eq (c_str h) (c_str j) || is_match j b))
unfolding is_match add_hash
is_match-add_hash h j b o = (
  sset_insert-IsOrdered h b.hashes o,
  elim (Bool-cases (str_eq (c_str h) (c_str j))) [
    | inl same ↦
        rw same (sset_contains-insert_same h j b.hashes ((str_eq_iff (c_str h) (c_str j)).0 same))
    | inr differ ↦ rw differ (
        sset_contains-insert_other h j b.hashes
          (λ e. ground (arith, (str_eq_iff (c_str h) (c_str j)).1 e)) o)
  ],
)
