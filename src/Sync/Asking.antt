-- ===== src/Sync/Asking.antt =====
-- The question of stat_request, as the server of this program reads it: it asks about the texts of
-- the page.
use camlispp.Prelude.{
  ℕ, ◌+◌, ◌≤◌, ◌≡◌, ◌≢◌, refl, sym, ap, ◌∙◌, subst, ◌↔◌, inl, inr, true, List, [], ◌∷◌, ◌++◌, some,
  arith, All, All-weaken, Elem, Bool-cases, drop, All-append,
}
use camlispp.StdString.{Bytes, bytes, decimal, starts_with, find_absent}
use camlispp.StdMap.Insert.{All-insert, insert_keeps, insert_new}
use camlispp.BlobKey.{BlobKey, blobref}
use camlispp.Qi.{Qi}
use camlispp.Http.RequestParser.Decimal.{decimal_injective, decimal-IsDigits, IsDigits}
use camlispp.Http.Multipart.{Attributes}
use camlispp.Http.Grammars.{
  qi_grammars, parse_query, add_pair, is_key_char, is_value_char, bytes_order,
}
use camlispp.Http.Grammars.Pairs.{
  write_more, write_query, IsIn, IsValue, IsPair, add_pairs, parse_query-write_query,
}
use camlispp.Http.RequestHandler.{query_part, blob_values, decode_query_string_blobs}
use camlispp.Http.RequestHandler.Enumeration.{entry_ref}
use camlispp.Sync.Urls.{stat_request, stat_fields}
use camlispp.Sync.Sets.{page_refs}

abbrev blob_name : ℕ → Bytes
blob_name n = bytes "blob" ++ decimal n

-- the pairs of the question
abbrev stat_pairs : ℕ → List (BlobKey × ℕ) → Attributes
stat_pairs n [] = []
stat_pairs n ((k, p) ∷ page) = (blob_name n, blobref k) ∷ stat_pairs (n + 1) page

abbrev version : Bytes × Bytes
version = (bytes "camliversion", bytes "1")

stat_fields-stat_pairs :
    (n : ℕ) (page : List (BlobKey × ℕ)) → stat_fields n page ≡ write_more (stat_pairs n page)
unfolding stat_fields
stat_fields-stat_pairs n [] = refl
stat_fields-stat_pairs n ((k, p) ∷ page) =
    ap (λ (t : Bytes). bytes "&blob" ++ (decimal n ++ (b'=' ∷ (blobref k ++ t))))
      (stat_fields-stat_pairs (n + 1) page)

stat_request-write_query :
    (page : List (BlobKey × ℕ)) → stat_request page ≡ write_query version (stat_pairs 1 page)
unfolding stat_request
stat_request-write_query page =
    ap (λ (t : Bytes). bytes "camliversion=1" ++ t) (stat_fields-stat_pairs 1 page)

digits_key : (s : Bytes) → IsDigits s → All (IsIn is_key_char) s
digits_key [] h = tt
digits_key (c ∷ s) h = (ground (arith, h.0), digits_key s h.1)

-- The texts of the page have the characters that the grammar takes for a value.
abbrev pub IsAskable : List (BlobKey × ℕ) → Type 0
IsAskable page = All (λ e. IsValue (entry_ref e)) page

stat_pairs-IsPair :
    (n : ℕ) (page : List (BlobKey × ℕ)) → IsAskable page → All IsPair (stat_pairs n page)
stat_pairs-IsPair n [] h = tt
stat_pairs-IsPair n ((k, p) ∷ page) h = (
  ((refl, (refl, (refl, (refl, digits_key (decimal n) (decimal-IsDigits n))))), h.0),
  stat_pairs-IsPair (n + 1) page h.1,
)

-- the number of no later pair is in the key
abbrev IsBefore : ℕ → Bytes × Bytes → Type 0
IsBefore n e = (j : ℕ) → n ≤ j → e.0 ≢ blob_name j

drop_blob : (n m : ℕ) → blob_name n ≡ blob_name m → decimal n ≡ decimal m
drop_blob n m e = ap (drop 4) e

add_pair-IsBefore :
    (n : ℕ) (ref : Bytes) (m : Attributes)
    → All (IsBefore n) m
    → All (IsBefore (n + 1)) (add_pair m (blob_name n, ref))
unfolding add_pair
add_pair-IsBefore n ref m h =
    All-insert (IsBefore (n + 1)) (blob_name n) ref m
      (λ j l e. let same = decimal_injective n j (drop_blob n j e) in omega arith)
      (All-weaken (IsBefore n) (IsBefore (n + 1)) m (λ e q j l. q j (omega arith)) h)

add_pairs_keeps : (e : Bytes × Bytes) (m ps : Attributes) → Elem e m → Elem e (add_pairs m ps)
unfolding add_pair
add_pairs_keeps e m [] h = h
add_pairs_keeps e m ((k, v) ∷ ps) h =
    add_pairs_keeps e (add_pair m (k, v)) ps (insert_keeps e k v m h)

All-add_pairs :
    (P : Bytes × Bytes → Type 0) (m ps : Attributes) → All P m → All P ps → All P (add_pairs m ps)
unfolding add_pair
All-add_pairs P m [] h k = h
All-add_pairs P m ((j, v) ∷ ps) h k =
    All-add_pairs P (add_pair m (j, v)) ps (All-insert P j v m k.0 h) k.1

-- A text of the page is entered under a key that starts with "blob".
entered :
    (x : Bytes) (n : ℕ) (page : List (BlobKey × ℕ)) (m : Attributes)
    → All (IsBefore n) m
    → Elem x (page_refs page)
    → (key : Bytes) × (starts_with key (bytes "blob") ≡ true)
      × Elem (key, x) (add_pairs m (stat_pairs n page))
unfolding add_pair starts_with
entered x n [] m h e = absurd e
entered x n ((k, p) ∷ page) m h (inl q) =
    let here : Elem (blob_name n, blobref k) (add_pair m (blob_name n, blobref k)) =
      insert_new (blob_name n) (blobref k) m
        (All-weaken (IsBefore n) (λ e. e.0 ≢ blob_name n) m (λ e b. b n (omega arith)) h) in
    (
      blob_name n,
      refl,
      subst (λ (y : Bytes). Elem (blob_name n, y) (add_pairs m (stat_pairs n ((k, p) ∷ page))))
          (sym q)
          (add_pairs_keeps (blob_name n, blobref k) (add_pair m (blob_name n, blobref k))
            (stat_pairs (n + 1) page) here),
    )
entered x n ((k, p) ∷ page) m h (inr q) =
    entered x (n + 1) page (add_pair m (blob_name n, blobref k))
      (add_pair-IsBefore n (blobref k) m h) q

blob_values-Elem :
    (key x : Bytes) (m : Attributes)
    → starts_with key (bytes "blob") ≡ true
    → Elem (key, x) m
    → Elem x (blob_values m)
unfolding blob_values
blob_values-Elem key x [] s e = absurd e
blob_values-Elem key x ((j, w) ∷ m) s (inl q) =
    let same : key ≡ j = ap (λ (t : Bytes × Bytes). t.0) q in
    let blob : starts_with j (bytes "blob") ≡ true =
      subst (λ (t : Bytes). starts_with t (bytes "blob") ≡ true) same s in
    rw (blob, blob_values) (inl (ap (λ (t : Bytes × Bytes). t.1) q))
blob_values-Elem key x ((j, w) ∷ m) s (inr q) = elim (Bool-cases (starts_with j (bytes "blob"))) [
  | inl h ↦ rw (h, blob_values) (inr (blob_values-Elem key x m s q))
  | inr h ↦ rw (h, blob_values) (blob_values-Elem key x m s q)
]

-- an entry under a key that starts with "blob" is one of the page's
abbrev IsFrom : List Bytes → Bytes × Bytes → Type 0
IsFrom refs e = starts_with e.0 (bytes "blob") ≡ true → Elem e.1 refs

stat_pairs-IsFrom :
    (n : ℕ) (page : List (BlobKey × ℕ)) (refs : List Bytes)
    → ((x : Bytes) → Elem x (page_refs page) → Elem x refs)
    → All (IsFrom refs) (stat_pairs n page)
stat_pairs-IsFrom n [] refs h = tt
stat_pairs-IsFrom n ((k, p) ∷ page) refs h =
    (λ s. h (blobref k) (inl refl), stat_pairs-IsFrom (n + 1) page refs (λ x e. h x (inr e)))

blob_values_from :
    (x : Bytes) (refs : List Bytes) (m : Attributes)
    → All (IsFrom refs) m
    → Elem x (blob_values m)
    → Elem x refs
unfolding blob_values
blob_values_from x refs [] h = λ e. absurd e
blob_values_from x refs ((j, w) ∷ m) h = elim (Bool-cases (starts_with j (bytes "blob"))) [
  | inl s ↦
      rw (s, blob_values)
        elim [
          | inl q ↦ subst (λ (y : Bytes). Elem y refs) (sym q) (h.0 s)
          | inr q ↦ blob_values_from x refs m h.1 q
        ]
  | inr s ↦ rw (s, blob_values) (λ e. blob_values_from x refs m h.1 e)
]

abbrev first_of : Bytes → ℕ
first_of [] = 0
first_of (c ∷ cs) = c

abbrev NoQuestion : Bytes → Type 0
NoQuestion s = All (λ c. c ≢ b'?') s

digits-NoQuestion : (s : Bytes) → IsDigits s → NoQuestion s
digits-NoQuestion [] h = tt
digits-NoQuestion (c ∷ s) h = (ground (arith, h.0), digits-NoQuestion s h.1)

value-NoQuestion : (s : Bytes) → All (IsIn is_value_char) s → NoQuestion s
value-NoQuestion [] h = tt
value-NoQuestion (c ∷ s) h = (ground (arith, h.0), value-NoQuestion s h.1)

stat_fields-NoQuestion :
    (n : ℕ) (page : List (BlobKey × ℕ)) → IsAskable page → NoQuestion (stat_fields n page)
unfolding stat_fields
stat_fields-NoQuestion n [] h = tt
stat_fields-NoQuestion n ((k, p) ∷ page) h =
    let rest =
      All-append (λ c. c ≢ b'?') (blobref k) (stat_fields (n + 1) page)
        (value-NoQuestion (blobref k) h.0.1) (stat_fields-NoQuestion (n + 1) page h.1) in
    let named =
      All-append (λ c. c ≢ b'?') (decimal n) (b'=' ∷ (blobref k ++ stat_fields (n + 1) page))
        (digits-NoQuestion (decimal n) (decimal-IsDigits n)) (omega arith, rest) in
    (omega arith, (omega arith, (omega arith, (omega arith, (omega arith, named)))))

stat_request-NoQuestion :
    (page : List (BlobKey × ℕ)) → IsAskable page → NoQuestion (stat_request page)
unfolding stat_request
stat_request-NoQuestion page h =
    All-append (λ c. c ≢ b'?') (bytes "camliversion=1") (stat_fields 1 page) (omega arith)
      (stat_fields-NoQuestion 1 page h)

query_part_whole : (s : Bytes) → NoQuestion s → query_part s ≡ s
unfolding query_part
query_part_whole s h = rw (find_absent b'?' s h, query_part) refl

module _ (qi : Qi) (page : List (BlobKey × ℕ)) (askable : IsAskable page) where
  abbrev read_pairs : Attributes
  read_pairs = add_pairs [] (version ∷ stat_pairs 1 page)

  parse_stat_request : parse_query qi (query_part (stat_request page)) ≡ some read_pairs
  parse_stat_request =
      ap (parse_query qi)
        (query_part_whole _ (stat_request-NoQuestion page askable) ∙ stat_request-write_query page)
      ∙ parse_query-write_query qi version (stat_pairs 1 page)
          (((refl, ground arith), (λ e. cc, (refl, tt))), stat_pairs-IsPair 1 page askable)

  decode_stat_request :
      decode_query_string_blobs (qi_grammars qi) (stat_request page) ≡ blob_values read_pairs
  unfolding decode_query_string_blobs
  decode_stat_request = rw (parse_stat_request, decode_query_string_blobs) refl

  version-IsBefore : All (IsBefore 1) (add_pair [] version)
  unfolding add_pair
  version-IsBefore = (λ j l e. let first : ◌≡◌ {A = ℕ} 99 98 = ap first_of e in omega arith, tt)

  asked : (x : Bytes) → Elem x (page_refs page) → Elem x (blob_values read_pairs)
  asked x e =
      let (key, s, m) = entered x 1 page (add_pair [] version) version-IsBefore e in
      blob_values-Elem key x read_pairs s m

  asked_only : (x : Bytes) → Elem x (blob_values read_pairs) → Elem x (page_refs page)
  unfolding starts_with
  asked_only x e =
      blob_values_from x (page_refs page) read_pairs
        (All-add_pairs (IsFrom (page_refs page)) [] (version ∷ stat_pairs 1 page) tt
          (λ s. cc, stat_pairs-IsFrom 1 page (page_refs page) (λ y q. q)))
        e

  -- The server reads from the question the texts of the page, and no others. They must have the
  -- characters that the grammar takes for a value.
  pub decode_query_string_blobs-stat_request :
      (x : Bytes)
      → Elem x (decode_query_string_blobs (qi_grammars qi) (stat_request page))
        ↔ Elem x (page_refs page)
  decode_query_string_blobs-stat_request x =
      let same = decode_stat_request in
      (
        λ e. asked_only x (subst (λ (l : List Bytes). Elem x l) same e),
        λ e. subst (λ (l : List Bytes). Elem x l) (sym same) (asked x e),
      )
