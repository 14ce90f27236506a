-- ===== src/StdMap/Insert.antt =====
-- What stands in a map: what insert entered, since it drops nothing, and what find finds.
use camlispp.Prelude.{
  ◌≡◌, ◌≢◌, refl, true, some, arith, subst, sym, inl, inr, [], ◌∷◌, All, Elem, Bool-cases,
}
use camlispp.StdMap.Base.{StrictOrder, StdMap, insert, find, IsAbove, IsSorted}

module _ {K V : Type 0} ⦃o : StrictOrder K⦄ where
  pub All-insert :
      (P : K × V → Type 0) (k : K) (v : V) (m : StdMap K V)
      → P (k, v)
      → All P m
      → All P (insert k v m)
  unfolding insert
  All-insert P k v [] p h = (p, tt)
  All-insert P k v ((j, w) ∷ m) p h = elim (Bool-cases (o.lt k j)) [
    | inl a ↦ rw (a, insert) (p, h)
    | inr a ↦ elim (Bool-cases (o.lt j k)) [
      | inl b ↦ rw (a, b, insert) (h.0, All-insert P k v m p h.1)
      | inr b ↦ rw (a, b, insert) h
    ]
  ]

  pub insert_keeps : (e : K × V) (k : K) (v : V) (m : StdMap K V) → Elem e m → Elem e (insert k v m)
  unfolding insert
  insert_keeps e k v [] h = absurd h
  insert_keeps e k v ((j, w) ∷ m) h = elim (Bool-cases (o.lt k j)) [
    | inl a ↦ rw (a, insert) (inr h)
    | inr a ↦ elim (Bool-cases (o.lt j k)) [
      | inl b ↦ rw (a, b, insert) (elim h [ inl q ↦ inl q | inr q ↦ inr (insert_keeps e k v m q) ])
      | inr b ↦ rw (a, b, insert) h
    ]
  ]

  -- A key that is not there is entered with its value.
  pub insert_new :
      (k : K) (v : V) (m : StdMap K V) → All (λ e. e.0 ≢ k) m → Elem (k, v) (insert k v m)
  unfolding insert
  insert_new k v [] h = inl refl
  insert_new k v ((j, w) ∷ m) h = elim (Bool-cases (o.lt k j)) [
    | inl a ↦ rw (a, insert) (inl refl)
    | inr a ↦ elim (Bool-cases (o.lt j k)) [
      | inl b ↦ rw (a, b, insert) (inr (insert_new k v m h.1))
      | inr b ↦ absurd (h.0 (sym (o.total k j a b)))
    ]
  ]

  above_all : (k j : K) (v : V) (m : StdMap K V) → IsAbove j m → Elem (k, v) m → o.lt j k ≡ true
  above_all k j v [] h e = absurd e
  above_all k j v ((i, w) ∷ m) h (inl q) = subst (λ (x : K × V). o.lt j x.0 ≡ true) (sym q) h.0
  above_all k j v ((i, w) ∷ m) h (inr q) = above_all k j v m h.1 q

  -- An entry of a map is found.
  pub find-Elem : (k : K) (v : V) (m : StdMap K V) → IsSorted m → Elem (k, v) m → find k m ≡ some v
  unfolding find
  find-Elem k v [] s e = absurd e
  find-Elem k v ((j, w) ∷ m) s (inl q) =
      subst (λ (x : K × V). find x.0 ((j, w) ∷ m) ≡ some x.1) (sym q) (ground (arith, o.irrefl j))
  find-Elem k v ((j, w) ∷ m) s (inr q) =
      let below = above_all k j v m s.0 q in
      ground (arith, o.trans k j k, o.irrefl k, below, find-Elem k v m s.1 q)
