-- ===== src/Sync/Sets.antt =====
-- The set of texts that the thread keeps: what is inserted stands in it, and what is erased does
-- not.
use camlispp.Prelude.{
  ℕ, ◌≡◌, ◌≢◌, refl, sym, ◌∙◌, subst, ◌⊎◌, ◌↔◌, inl, inr, true, false, List, [], ◌∷◌, All, Elem,
  Bool-cases, map, if-P,
}
use camlispp.StdString.{
  Bytes, str_eq, str_eq_iff, str_lt, str_lt_irrefl, str_lt_trans, str_lt_total,
}
use camlispp.BlobKey.{BlobKey, blobref}
use camlispp.Http.RequestHandler.Enumeration.{entry_ref}
use camlispp.Sync.Host.{set_insert, set_erase, check_refs, erase_all}

-- The order of the elements of a std::set<std::string>.
abbrev pub IsOrdered : List Bytes → Type 0
IsOrdered [] = Unit
IsOrdered (t ∷ ts) = All (λ u. str_lt t u ≡ true) ts × IsOrdered ts

pub set_insert_new : (s : Bytes) (ts : List Bytes) → Elem s (set_insert s ts)
unfolding set_insert
set_insert_new s [] = inl refl
set_insert_new s (t ∷ ts) = elim (Bool-cases (str_lt s t)) [
  | inl h ↦ rw (h, set_insert) (inl refl)
  | inr h ↦ elim (Bool-cases (str_lt t s)) [
    | inl k ↦ rw (h, k, set_insert) (inr (set_insert_new s ts))
    | inr k ↦ rw (h, k, set_insert) (inl (str_lt_total s t h k))
  ]
]

pub set_insert_old : (x s : Bytes) (ts : List Bytes) → Elem x ts → Elem x (set_insert s ts)
unfolding set_insert
set_insert_old x s [] e = absurd e
set_insert_old x s (t ∷ ts) e = elim (Bool-cases (str_lt s t)) [
  | inl h ↦ rw (h, set_insert) (inr e)
  | inr h ↦ elim (Bool-cases (str_lt t s)) [
    | inl k ↦
        rw (h, k, set_insert) (elim e [ inl q ↦ inl q | inr q ↦ inr (set_insert_old x s ts q) ])
    | inr k ↦ rw (h, k, set_insert) e
  ]
]

pub set_insert_only :
    (x s : Bytes) (ts : List Bytes) → Elem x (set_insert s ts) → (x ≡ s) ⊎ Elem x ts
unfolding set_insert
set_insert_only x s [] = λ e. e
set_insert_only x s (t ∷ ts) = elim (Bool-cases (str_lt s t)) [
  | inl h ↦ rw (h, set_insert) (λ e. e)
  | inr h ↦ elim (Bool-cases (str_lt t s)) [
    | inl k ↦
        rw (h, k, set_insert)
          elim [
            | inl q ↦ inr (inl q)
            | inr q ↦ elim (set_insert_only x s ts q) [ inl p ↦ inl p | inr p ↦ inr (inr p) ]
          ]
    | inr k ↦ rw (h, k, set_insert) (λ e. inr e)
  ]
]

All-set_insert :
    (P : Bytes → Type 0) (s : Bytes) (ts : List Bytes) → P s → All P ts → All P (set_insert s ts)
unfolding set_insert
All-set_insert P s [] p h = (p, tt)
All-set_insert P s (t ∷ ts) p h = elim (Bool-cases (str_lt s t)) [
  | inl k ↦ rw (k, set_insert) (p, h)
  | inr k ↦ elim (Bool-cases (str_lt t s)) [
    | inl m ↦ rw (k, m, set_insert) (h.0, All-set_insert P s ts p h.1)
    | inr m ↦ rw (k, m, set_insert) h
  ]
]

below-All :
    (s t : Bytes) (ts : List Bytes)
    → str_lt s t ≡ true
    → All (λ u. str_lt t u ≡ true) ts
    → All (λ u. str_lt s u ≡ true) ts
below-All s t [] h k = tt
below-All s t (u ∷ ts) h k = (str_lt_trans s t u h k.0, below-All s t ts h k.1)

pub set_insert-IsOrdered :
    (s : Bytes) (ts : List Bytes) → IsOrdered ts → IsOrdered (set_insert s ts)
unfolding set_insert
set_insert-IsOrdered s [] h = (tt, tt)
set_insert-IsOrdered s (t ∷ ts) h = elim (Bool-cases (str_lt s t)) [
  | inl k ↦ rw (k, set_insert) ((k, below-All s t ts k h.0), h)
  | inr k ↦ elim (Bool-cases (str_lt t s)) [
    | inl m ↦
        rw (k, m, set_insert)
          (All-set_insert (λ u. str_lt t u ≡ true) s ts m h.0, set_insert-IsOrdered s ts h.1)
    | inr m ↦ rw (k, m, set_insert) h
  ]
]

false-ne-true : false ≢ true
false-ne-true e = cc

not_above : (t : Bytes) (ts : List Bytes) → All (λ u. str_lt t u ≡ true) ts → Elem t ts → ⊥
not_above t [] h e = e
not_above t (u ∷ ts) h (inl q) =
    let less : str_lt t t ≡ true = subst (λ (v : Bytes). str_lt t v ≡ true) (sym q) h.0 in
    false-ne-true (sym (str_lt_irrefl t) ∙ less)
not_above t (u ∷ ts) h (inr q) = not_above t ts h.1 q

-- What is left of an ordered set after an erasure is what stood there, but for the text erased.
pub set_erase-Elem :
    (x s : Bytes) (ts : List Bytes) → IsOrdered ts → Elem x (set_erase s ts) ↔ (Elem x ts × (x ≢ s))
unfolding set_erase
set_erase-Elem x s [] h = (λ e. absurd e, λ e. e.0)
set_erase-Elem x s (t ∷ ts) h = elim (Bool-cases (str_eq s t)) [
  | inl k ↦
      let same = (str_eq_iff s t).0 k in
      rw (k, set_erase)
        (
          λ e. (inr e, λ q. not_above t ts h.0 (subst (λ (v : Bytes). Elem v ts) (q ∙ same) e)),
          λ (e, n). elim e [ inl q ↦ absurd (n (q ∙ sym same)) | inr q ↦ q ],
        )
  | inr k ↦
      let ih = set_erase-Elem x s ts h.1 in
      rw (k, set_erase)
        (
          elim [
            | inl q ↦ (inl q, λ p. false-ne-true (sym k ∙ (str_eq_iff s t).1 (sym p ∙ q)))
            | inr q ↦ (inr (ih.0 q).0, (ih.0 q).1)
          ],
          λ (e, n). elim e [ inl q ↦ inl q | inr q ↦ inr (ih.1 (q, n)) ],
        )
]

All-set_erase :
    (P : Bytes → Type 0) (s : Bytes) (ts : List Bytes) → All P ts → All P (set_erase s ts)
unfolding set_erase
All-set_erase P s [] h = h
All-set_erase P s (t ∷ ts) h =
    if-P (All P) (str_eq s t) _ _ (λ _. h.1) (λ _. (h.0, All-set_erase P s ts h.1))

set_erase-IsOrdered : (s : Bytes) (ts : List Bytes) → IsOrdered ts → IsOrdered (set_erase s ts)
unfolding set_erase
set_erase-IsOrdered s [] h = h
set_erase-IsOrdered s (t ∷ ts) h =
    if-P IsOrdered (str_eq s t) _ _ (λ _. h.1)
      (λ _. (All-set_erase (λ u. str_lt t u ≡ true) s ts h.0, set_erase-IsOrdered s ts h.1))

pub erase_all-Elem :
    (x : Bytes) (ss ts : List Bytes)
    → IsOrdered ts
    → Elem x (erase_all ss ts) ↔ (Elem x ts × ¬ Elem x ss)
unfolding erase_all
erase_all-Elem x [] ts h = (λ e. (e, λ q. q), λ e. e.0)
erase_all-Elem x (s ∷ ss) ts h =
    let ih = erase_all-Elem x ss (set_erase s ts) (set_erase-IsOrdered s ts h) in
    let one = set_erase-Elem x s ts h in
    (
      λ e. let (a, n) = ih.0 e in let (b, m) = one.0 a in (b, elim [ inl q ↦ m q | inr q ↦ n q ]),
      λ (a, n). ih.1 (one.1 (a, λ q. n (inl q)), λ q. n (inr q)),
    )

pub erase_all-IsOrdered : (ss ts : List Bytes) → IsOrdered ts → IsOrdered (erase_all ss ts)
unfolding erase_all
erase_all-IsOrdered [] ts h = h
erase_all-IsOrdered (s ∷ ss) ts h =
    erase_all-IsOrdered ss (set_erase s ts) (set_erase-IsOrdered s ts h)

-- The texts of a page.
abbrev pub page_refs : List (BlobKey × ℕ) → List Bytes
page_refs page = map entry_ref page

check_refs-from :
    (x : Bytes) (page : List (BlobKey × ℕ)) (refs : List Bytes)
    → IsOrdered refs
    → IsOrdered (check_refs page refs)
      × (Elem x (check_refs page refs) ↔ (Elem x (page_refs page) ⊎ Elem x refs))
unfolding check_refs
check_refs-from x [] refs h = (h, (λ e. inr e, elim [ inl q ↦ absurd q | inr q ↦ q ]))
check_refs-from x ((k, p) ∷ page) refs h =
    let (o, ih) =
      check_refs-from x page (set_insert (blobref k) refs)
        (set_insert-IsOrdered (blobref k) refs h) in
    (
      o,
      (
        λ e. elim (ih.0 e) [
          | inl q ↦ inl (inr q)
          | inr q ↦ elim (set_insert_only x (blobref k) refs q) [
            | inl r ↦ inl (inl r)
            | inr r ↦ inr r
          ]
        ],
        elim [
          | inl (inl q) ↦ ih.1 (
              inr (
                subst (λ (y : Bytes). Elem y (set_insert (blobref k) refs)) (sym q)
                  (set_insert_new (blobref k) refs)))
          | inl (inr q) ↦ ih.1 (inl q)
          | inr q ↦ ih.1 (inr (set_insert_old x (blobref k) refs q))
        ],
      ),
    )

-- The set of a page is in order, and has the texts of the page.
pub check_refs-Elem :
    (x : Bytes) (page : List (BlobKey × ℕ))
    → IsOrdered (check_refs page []) × (Elem x (check_refs page []) ↔ Elem x (page_refs page))
check_refs-Elem x page =
    let (o, e) = check_refs-from x page [] tt in
    (o, (λ q. elim (e.0 q) [ inl r ↦ r | inr r ↦ absurd r ], λ q. e.1 (inl q)))
