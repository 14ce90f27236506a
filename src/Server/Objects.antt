-- ===== src/Server/Objects.antt =====
-- server.cpp: start_accept makes a new object for each accept, so no two sockets share a connection.
use camlispp.Prelude.{
  ℕ, zero, suc, ◌<◌, ◌≡◌, refl, sym, ap, ◌∙◌, ◌⊎◌, inl, inr, subst, true, false, List, [], ◌∷◌,
  ◌++◌, some, arith, length, length-append, length-set, get_elem?, set, All, All-weaken,
}
use camlispp.BlobIndex.{BlobIndex}
use camlispp.Http.Connection.{Connection, start}
use camlispp.Server.{Server, new_server, start_accept, handle_accept}

-- The objects of a server: the one for the next accept has an address of the heap, the started ones
-- have lower addresses, and no two of them have the same.
pub record IsLaid (s : Server) : Type 0 where
  pub pending : s.new_connection < length s.heap
  pub below : All (λ a. a < s.new_connection) s.connections
  pub apart :
      (m n a : ℕ) → get_elem? s.connections m ≡ some a → get_elem? s.connections n ≡ some a → m ≡ n

some-injective : {A : Type 0} (a b : A) → some a ≡ some b → a ≡ b
some-injective a b e = cc

-- What stands in a list with one more element at its end.
pub get_elem?-snoc :
    {A : Type 0} (xs : List A) (y : A) (m : ℕ) (a : A)
    → get_elem? (xs ++ y ∷ []) m ≡ some a
    → (get_elem? xs m ≡ some a) ⊎ ((m ≡ length xs) × (y ≡ a))
get_elem?-snoc [] y zero a e = inr (refl, some-injective y a e)
get_elem?-snoc [] y (suc m) a e = absurd (cc)
get_elem?-snoc (x ∷ xs) y zero a e = inl e
get_elem?-snoc (x ∷ xs) y (suc m) a e = elim (get_elem?-snoc xs y m a e) [
  | inl q ↦ inl q
  | inr (q, r) ↦ inr (ap suc q, r)
]

pub get_elem?-All {ℓ} :
    {A : Type 0} (P : A → Type ℓ) (xs : List A) (n : ℕ) (a : A)
    → All P xs
    → get_elem? xs n ≡ some a
    → P a
get_elem?-All P [] n a h e = absurd (cc)
get_elem?-All P (x ∷ xs) zero a h e = subst P (some-injective x a e) h.0
get_elem?-All P (x ∷ xs) (suc n) a h e = get_elem?-All P xs n a h.1 e

pub All-snoc {ℓ} :
    {A : Type 0} (P : A → Type ℓ) (xs : List A) (a : A) → All P xs → P a → All P (xs ++ a ∷ [])
All-snoc P [] a h p = (p, tt)
All-snoc P (x ∷ xs) a h p = (h.0, All-snoc P xs a h.1 p)

pub get_elem?_below :
    {A : Type 0} (xs : List A) (n : ℕ) (a : A) → get_elem? xs n ≡ some a → n < length xs
get_elem?_below [] n a e = absurd (cc)
get_elem?_below (x ∷ xs) zero a e = omega arith
get_elem?_below (x ∷ xs) (suc n) a e = omega (arith, get_elem?_below xs n a e)

pub new_server-IsLaid : (u : ℕ) (i : BlobIndex) → IsLaid (new_server u i)
unfolding new_server start_accept
new_server-IsLaid u i = record { pending = omega arith; below = tt; apart = λ m n a h k. cc }

-- an address with one more at the end, above all others
apart_snoc :
    (xs : List ℕ) (y : ℕ)
    → All (λ a. a < y) xs
    → ((m n a : ℕ) → get_elem? xs m ≡ some a → get_elem? xs n ≡ some a → m ≡ n)
    → (m n a : ℕ) → get_elem? (xs ++ y ∷ []) m ≡ some a
    → get_elem? (xs ++ y ∷ []) n ≡ some a
    → m ≡ n
apart_snoc xs y below apart m n a h k =
    let less : (k : ℕ) → get_elem? xs k ≡ some a → a < y =
      λ k e. get_elem?-All (λ b. b < y) xs k a below e in
    elim (get_elem?-snoc xs y m a h) [
      | inl p ↦ elim (get_elem?-snoc xs y n a k) [
        | inl q ↦ apart m n a p q
        | inr (q, r) ↦ absurd (omega (arith, less m p))
      ]
      | inr (p, r) ↦ elim (get_elem?-snoc xs y n a k) [
        | inl q ↦ absurd (omega (arith, less n q))
        | inr (q, z) ↦ p ∙ sym q
      ]
    ]

pub accepted-IsLaid : (u : ℕ) (s : Server) → IsLaid s → IsLaid (handle_accept false u s)
unfolding handle_accept start_accept
accepted-IsLaid u s v = record {
  pending = omega (arith, length-append s.heap (start u ∷ []));
  below =
      All-snoc (λ a. a < length s.heap) s.connections s.new_connection
        (All-weaken (λ a. a < s.new_connection) (λ a. a < length s.heap) s.connections
          (λ a h. omega (arith, v.pending)) v.below)
        v.pending;
  apart = apart_snoc s.connections s.new_connection v.below v.apart;
}

pub accept_failed-IsLaid : (u : ℕ) (s : Server) → IsLaid s → IsLaid (handle_accept true u s)
unfolding handle_accept start_accept
accept_failed-IsLaid u s v = record {
  pending = omega (arith, length-append s.heap (start u ∷ []));
  below =
      All-weaken (λ a. a < s.new_connection) (λ a. a < length s.heap) s.connections
        (λ a h. omega (arith, v.pending)) v.below;
  apart = v.apart;
}

pub put-IsLaid :
    (a : ℕ) (c : Connection) (i : BlobIndex) (s : Server)
    → IsLaid s
    → IsLaid (record s { heap = set s.heap a c; index = i })
put-IsLaid a c i s v = record {
  pending = omega (arith, v.pending, length-set s.heap a c);
  below = v.below;
  apart = v.apart;
}
