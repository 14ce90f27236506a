-- ===== src/StdMap/Base.antt =====
-- The operations of std::map that the program uses, over a strict total order on keys.
use camlispp.Prelude.{◌≡◌, Bool, true, false, List, [], ◌∷◌, Option, none, some, if◌then◌else◌}

pub record StrictOrder {ℓ} (K : Type ℓ) : Type ℓ where
  pub lt : K → K → Bool
  pub irrefl : (a : K) → lt a a ≡ false
  pub trans : (a b c : K) → lt a b ≡ true → lt b c ≡ true → lt a c ≡ true
  pub total : (a b : K) → lt a b ≡ false → lt b a ≡ false → a ≡ b

abbrev pub StdMap {ℓ} : Type ℓ → Type ℓ → Type ℓ
StdMap K V = List (K × V)

module _ {ℓ} {K V : Type ℓ} ⦃o : StrictOrder K⦄ where
  -- operator[] followed by an assignment
  unfoldable pub assign : K → V → StdMap K V → StdMap K V
  assign k v [] = (k, v) ∷ []
  assign k v ((j, w) ∷ m) =
      let rest = assign k v m in
      if o.lt k j then (k, v) ∷ (j, w) ∷ m else if o.lt j k then (j, w) ∷ rest else (j, v) ∷ m

  -- insert, which keeps the value of a key that is there
  unfoldable pub insert : K → V → StdMap K V → StdMap K V
  insert k v [] = (k, v) ∷ []
  insert k v ((j, w) ∷ m) =
      let rest = insert k v m in
      if o.lt k j then (k, v) ∷ (j, w) ∷ m else if o.lt j k then (j, w) ∷ rest else (j, w) ∷ m

  -- find, and the value behind the iterator
  unfoldable pub find : K → StdMap K V → Option V
  find k [] = none
  find k ((j, w) ∷ m) =
      let rest = find k m in if o.lt k j then none else if o.lt j k then rest else some w

  -- lower_bound: the entries from the first key that is not below `k`
  unfoldable pub lower_bound : K → StdMap K V → StdMap K V
  lower_bound k [] = []
  lower_bound k ((j, w) ∷ m) = let rest = lower_bound k m in if o.lt j k then rest else (j, w) ∷ m

  -- The order of the entries, which every map keeps.
  abbrev pub IsAbove : K → StdMap K V → Type 0
  IsAbove k [] = Unit
  IsAbove k ((j, w) ∷ m) = (o.lt k j ≡ true) × IsAbove k m

  abbrev pub IsSorted : StdMap K V → Type 0
  IsSorted [] = Unit
  IsSorted ((j, w) ∷ m) = IsAbove j m × IsSorted m
