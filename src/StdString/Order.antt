-- ===== src/StdString/Order.antt =====
-- operator< is a strict total order.
use camlispp.Prelude.{◌≡◌, refl, true, false, [], ◌∷◌, arith}
use camlispp.StdString.Base.{Bytes, str_lt}

pub str_lt_irrefl : (a : Bytes) → str_lt a a ≡ false
unfolding str_lt
str_lt_irrefl [] = refl
str_lt_irrefl (x ∷ a) = ground (arith, str_lt_irrefl a)

pub str_lt_trans : (a b c : Bytes) → str_lt a b ≡ true → str_lt b c ≡ true → str_lt a c ≡ true
unfolding str_lt
str_lt_trans (x ∷ a) (y ∷ b) (z ∷ c) h k = ground (arith, str_lt_trans a b c)
str_lt_trans [] [] c h k = cc
str_lt_trans [] (y ∷ b) [] h k = cc
str_lt_trans _ _ _ h k = ground arith

pub str_lt_total : (a b : Bytes) → str_lt a b ≡ false → str_lt b a ≡ false → a ≡ b
unfolding str_lt
str_lt_total (x ∷ a) (y ∷ b) h k = ground (arith, str_lt_total a b)
str_lt_total _ _ h k = ground arith
