-- ===== src/StdMap/Pages.antt =====
-- The part of a map from a key on.
use camlispp.Prelude.{◌≡◌, true, [], ◌∷◌, ◌++◌, arith}
use camlispp.StdMap.Base.{StrictOrder, StdMap, lower_bound, IsAbove, IsSorted}

module _ {ℓ} {K V : Type ℓ} ⦃o : StrictOrder K⦄ where
  -- The entry that stands behind a prefix is above all of it.
  IsAbove-mid :
      (j k : K) (w : V) (front back : StdMap K V)
      → IsAbove j (front ++ (k, w) ∷ back)
      → o.lt j k ≡ true
  IsAbove-mid j k w [] back h = h.0
  IsAbove-mid j k w (e ∷ front) back h = IsAbove-mid j k w front back h.1

  -- From the key of an entry on stand that entry and all that follows it.
  pub lower_bound-split :
      (front : StdMap K V) (k : K) (w : V) (back : StdMap K V)
      → IsSorted (front ++ (k, w) ∷ back)
      → lower_bound k (front ++ (k, w) ∷ back) ≡ (k, w) ∷ back
  unfolding lower_bound
  lower_bound-split [] k w back s = ground (arith, o.irrefl k)
  lower_bound-split ((j, v) ∷ front) k w back s =
      ground (arith, IsAbove-mid j k w front back s.0, lower_bound-split front k w back s.1)
