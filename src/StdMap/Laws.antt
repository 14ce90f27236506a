-- ===== src/StdMap/Laws.antt =====
-- Laws of look-up and assignment.
use camlispp.Prelude.{◌≡◌, ◌≢◌, refl, true, [], ◌∷◌, none, some, arith, subst, All, if-P}
use camlispp.StdMap.Base.{StrictOrder, StdMap, assign, find, IsAbove, IsSorted}

module _ {ℓ} {K V : Type ℓ} ⦃o : StrictOrder K⦄ where
  IsAbove-trans : (a b : K) (m : StdMap K V) → o.lt a b ≡ true → IsAbove b m → IsAbove a m
  IsAbove-trans a b [] h t = tt
  IsAbove-trans a b ((j, w) ∷ m) h t = (o.trans a b j h t.0, IsAbove-trans a b m h t.1)

  IsAbove-assign :
      (a k : K) (v : V) (m : StdMap K V) → o.lt a k ≡ true → IsAbove a m → IsAbove a (assign k v m)
  unfolding assign
  IsAbove-assign a k v [] h t = (h, tt)
  IsAbove-assign a k v ((j, w) ∷ m) h t = ground (arith, IsAbove-assign a k v m h t.1)

  -- Assignment keeps the order of the entries.
  pub assign-IsSorted : (k : K) (v : V) (m : StdMap K V) → IsSorted m → IsSorted (assign k v m)
  unfolding assign
  assign-IsSorted k v [] s = (tt, tt)
  assign-IsSorted k v ((j, w) ∷ m) s =
      ground (arith, IsAbove-trans k j m, IsAbove-assign j k v m, assign-IsSorted k v m s.1)

  find_above : (k : K) (m : StdMap K V) → IsAbove k m → find k m ≡ none
  unfolding find
  find_above k [] h = refl
  find_above k ((j, w) ∷ m) h = ground arith

  pub find-assign_self : (k : K) (v : V) (m : StdMap K V) → find k (assign k v m) ≡ some v
  unfolding find assign
  find-assign_self k v [] = ground (arith, o.irrefl k)
  find-assign_self k v ((j, w) ∷ m) = ground (arith, o.irrefl k, find-assign_self k v m)

  pub find-assign_ne :
      (k i : K) (v : V) (m : StdMap K V) → IsSorted m → k ≢ i → find i (assign k v m) ≡ find i m
  unfolding find assign
  find-assign_ne k i v [] s h = ground (arith, o.total k i)
  find-assign_ne k i v ((j, w) ∷ m) s h =
      ground (arith, o.total k i, o.trans i k j, o.total k j, find-assign_ne k i v m s.1 h)

  -- What holds of every entry and of the one assigned holds of every entry after it.
  pub All-assign {κ} :
      (P : K × V → Type κ) (k : K) (v : V) (m : StdMap K V)
      → P (k, v)
      → All P m
      → All P (assign k v m)
  unfolding assign
  All-assign P k v [] p h = (p, tt)
  All-assign P k v ((j, w) ∷ m) p h =
      if-P (All P) (o.lt k j) _ _ (λ _. (p, h))
        λ above.
          if-P (All P) (o.lt j k) _ _ (λ _. (h.0, All-assign P k v m p h.1))
            λ below. (subst (λ (x : K). P (x, v)) (o.total k j above below) p, h.1)
