-- ===== src/Http/RequestHandler/Enumeration.antt =====
-- What a page of handle_enumerate shows, and where it says to go on.
use camlispp.Prelude.{
  ℕ, zero, suc, ◌+◌, ◌≤◌, ◌≡◌, refl, sym, ap, ◌∙◌, List, [], ◌∷◌, ◌++◌, none, some, map, arith,
  length, take, drop, All, take-append-drop, length-drop, take_all, length-append,
}
use camlispp.StdString.{Bytes}
use camlispp.BlobKey.{BlobKey, blobref}
use camlispp.BlobKey.Order.{key_order}
use camlispp.BlobIndex.{BlobIndex}
use camlispp.Http.RequestHandler.Defs.{Json, Items, nil, cons, obj, str, field}
use camlispp.Http.RequestHandler.Queries.{shown, back_ref, continue_after}

-- the blobRef of an item, as a client reads it
abbrev item_ref : Json → Bytes
item_ref (obj (field k (str ref) rest)) = ref
item_ref _ = []

abbrev pub item_refs : Items → List Bytes
item_refs nil = []
item_refs (cons j js) = item_ref j ∷ item_refs js

abbrev pub entry_ref : BlobKey × ℕ → Bytes
entry_ref e = blobref e.0

shown_none :
    (k : ℕ) (i : BlobIndex) (page : List (BlobKey × ℕ)) → 25 ≤ k → item_refs (shown k i page) ≡ []
unfolding shown
shown_none k i [] h = refl
shown_none k i (e ∷ page) h = ground (arith, shown_none (k + 1) i page)

pub shown-take :
    (n k : ℕ) (i : BlobIndex) (page : List (BlobKey × ℕ))
    → k + n ≡ 25
    → item_refs (shown k i page) ≡ map entry_ref (take n page)
unfolding shown
shown-take zero k i [] h = refl
shown-take (suc n) k i [] h = refl
shown-take zero k i (e ∷ page) h = ground (arith, shown_none (k + 1) i page)
shown-take (suc n) k i (e ∷ page) h = ground (arith, shown-take n (k + 1) i page)

pub take-take : (n : ℕ) {A : Type 0} (xs : List A) → take n (take (suc n) xs) ≡ take n xs
take-take zero xs = refl
take-take (suc n) [] = refl
take-take (suc n) (x ∷ xs) = ap (◌∷◌ x) (take-take n xs)

pub take-suc :
    (n : ℕ) (xs : List (BlobKey × ℕ)) (e : BlobKey × ℕ) (ys : List (BlobKey × ℕ))
    → drop n xs ≡ e ∷ ys
    → take (suc n) xs ≡ take n xs ++ e ∷ []
take-suc zero [] e ys h = absurd (cc)
take-suc zero (x ∷ xs) e ys h = ground arith
take-suc (suc n) [] e ys h = absurd (cc)
take-suc (suc n) (x ∷ xs) e ys h = ap (◌∷◌ x) (take-suc n xs e ys h)

pub back_ref-snoc :
    (xs : List (BlobKey × ℕ)) (e : BlobKey × ℕ) → back_ref (xs ++ e ∷ []) ≡ entry_ref e
unfolding back_ref
back_ref-snoc [] e = refl
back_ref-snoc (x ∷ []) e = refl
back_ref-snoc (x ∷ y ∷ xs) e = back_ref-snoc (y ∷ xs) e

length-take-drop :
    (n : ℕ) (xs : List (BlobKey × ℕ)) → length (take n xs) + length (drop n xs) ≡ length xs
length-take-drop n xs =
    sym (length-append (take n xs) (drop n xs)) ∙ ap length (take-append-drop n xs)

pub continue_after_last :
    (back : List (BlobKey × ℕ)) → length back ≤ 25 → continue_after (take 26 back) ≡ none
unfolding continue_after
continue_after_last back h = rw (take_all 26 back (omega arith)) (ground arith)

pub continue_after_more :
    (back : List (BlobKey × ℕ)) (e : BlobKey × ℕ) (ys : List (BlobKey × ℕ))
    → drop 25 back ≡ e ∷ ys
    → continue_after (take 26 back) ≡ some (entry_ref e)
unfolding continue_after
continue_after_more back e ys h =
    let l : length (drop 25 back) ≡ suc (length ys) = ap length h in
    let k = length-take-drop 25 back in
    let d = length-drop 25 back in
    rw (take-suc 25 back e ys h)
      (ground (arith, length-append (take 25 back) (e ∷ []), back_ref-snoc (take 25 back) e))

pub All-back {ℓ} :
    {A : Type 0} (P : A → Type ℓ) (front : List A) (e : A) (back : List A)
    → All P (front ++ e ∷ back)
    → P e
All-back P [] e back h = h.0
All-back P (x ∷ front) e back h = All-back P front e back h.1
