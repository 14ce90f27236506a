-- ===== src/Sync/Uploading.antt =====
-- send_blob of Sync.cpp on the texts of a page of the local index: each is uploaded from the file of
-- its blob.
use camlispp.Prelude.{
  ℕ, zero, suc, ◌<◌, ◌≡◌, refl, sym, ap, ◌∙◌, subst, inl, inr, List, [], ◌∷◌, ◌++◌, Option, some,
  map, arith, length, get_elem?, All, Elem,
}
use camlispp.StdString.{Bytes, bytes}
use camlispp.StdMap.Insert.{find-Elem}
use camlispp.BlobKey.{BlobKey, blobref}
use camlispp.BlobKey.Order.{key_order}
use camlispp.BlobKey.RoundTrip.{create_blob_key-blobref}
use camlispp.Blob.{Blob}
use camlispp.Config.{Config}
use camlispp.Hash.{Crypto}
use camlispp.BlobIndex.{BlobIndex, get}
use camlispp.BlobIndex.Invariant.{IsSound, IsLive}
use camlispp.BlobIndex.Lookup.{get-find}
use camlispp.BlobIndex.Pages.{IsPlain}
use camlispp.Http.RequestHandler.{Json, lookup}
use camlispp.Http.RequestHandler.Enumeration.{entry_ref}
use camlispp.Sync.Host.{Call, upload, State, send_blob, send_all}
use camlispp.Sync.Sets.{page_refs}

-- A text and the path of the file of the blob that it leads to.
abbrev pub HasFile : BlobIndex → Bytes × Bytes → Type 0
HasFile i e =
    (p : ℕ) × (b : Blob) × (get e.0 i ≡ some p)
    × (get_elem? i.heap p ≡ some b)
    × (e.1 ≡ b.file_path)

abbrev pub file_name : Bytes × Bytes → Bytes
file_name e = e.0

-- The world after an upload of each file, under its text, to the server's address for uploads.
abbrev pub uploaded :
    {W : Type 0} → (Call → W → Option Bytes × W) → Bytes → List (Bytes × Bytes) → W → W
uploaded perform host [] w = w
uploaded perform host ((ref, path) ∷ files) w =
    uploaded perform host files (perform (upload (host ++ bytes "/upload") ref path) w).1

pub Elem-All {ℓ} :
    {A : Type 0} (P : A → Type ℓ) (xs : List A) → ((x : A) → Elem x xs → P x) → All P xs
Elem-All P [] h = tt
Elem-All P (x ∷ xs) h = (h x (inl refl), Elem-All P xs (λ y e. h y (inr e)))

pub All-Elem {ℓ} : {A : Type 0} (P : A → Type ℓ) (xs : List A) (x : A) → All P xs → Elem x xs → P x
All-Elem P [] x h e = absurd e
All-Elem P (y ∷ xs) x h (inl q) = subst P (sym q) h.0
All-Elem P (y ∷ xs) x h (inr q) = All-Elem P xs x h.1 q

Elem-page_refs :
    (x : Bytes) (page : List (BlobKey × ℕ))
    → Elem x (page_refs page)
    → (e : BlobKey × ℕ) × Elem e page × (x ≡ entry_ref e)
Elem-page_refs x [] h = absurd h
Elem-page_refs x (e ∷ page) (inl q) = (e, inl refl, q)
Elem-page_refs x (e ∷ page) (inr q) = let (f, m, r) = Elem-page_refs x page q in (f, inr m, r)

get_elem?_live :
    {A : Type 0} (xs : List A) (n : ℕ) → n < length xs → (a : A) × (get_elem? xs n ≡ some a)
get_elem?_live [] n h = absurd (omega arith)
get_elem?_live (x ∷ xs) zero h = (x, refl)
get_elem?_live (x ∷ xs) (suc n) h = get_elem?_live xs n (omega arith)

-- The text of each entry of a sound index leads to a blob.
pub entry-HasFile :
    (i : BlobIndex) (e : BlobKey × ℕ)
    → IsSound i
    → Elem e i.blobs
    → (path : Bytes) × HasFile i (entry_ref e, path)
entry-HasFile i (k, p) s m =
    let plain = All-Elem IsPlain i.blobs (k, p) s.plain m in
    let live = All-Elem (IsLive i) i.blobs (k, p) s.live m in
    let (b, at) = get_elem?_live i.heap p live in
    (
      b.file_path,
      (
        p,
        b,
        get-find (blobref k) k i (create_blob_key-blobref k plain.0 plain.1)
            ∙ find-Elem k p i.blobs s.sorted m,
        at,
        refl,
      ),
    )

pub page_refs-HasFile :
    (i : BlobIndex) (page : List (BlobKey × ℕ)) (x : Bytes)
    → IsSound i
    → All (λ e. Elem e i.blobs) page
    → Elem x (page_refs page)
    → (path : Bytes) × HasFile i (x, path)
page_refs-HasFile i page x s local h =
    let (e, m, q) = Elem-page_refs x page h in
    subst (λ (y : Bytes). (path : Bytes) × HasFile i (y, path)) (sym q)
      (entry-HasFile i e s (All-Elem (λ f. Elem f i.blobs) page e local m))

module _ {W : Type 0} (crypto : Crypto) (config : Config) (read_json : Bytes → Option Json)
    (perform : Call → W → Option Bytes × W) (host : Bytes) where
  send_blob-HasFile :
      (ref path : Bytes) (s : State W)
      → HasFile s.index (ref, path)
      → send_blob crypto config read_json perform host ref s
        ≡ record s { world = (perform (upload (host ++ bytes "/upload") ref path) s.world).1 }
  unfolding send_blob lookup
  send_blob-HasFile ref path s (p, b, found, at, file) =
      rw (found, send_blob, lookup)
        (rw at (
          ap
            (λ (t : Bytes). record s {
              world = (perform (upload (host ++ bytes "/upload") ref t) s.world).1;
            })
            (sym file)))

  -- Texts that lead to a blob are all uploaded, in their order.
  pub send_all-uploaded :
      (refs : List Bytes) (s : State W)
      → All (λ ref. (path : Bytes) × HasFile s.index (ref, path)) refs
      → (files : List (Bytes × Bytes)) × (map file_name files ≡ refs)
        × All (HasFile s.index) files
        × (send_all crypto config read_json perform host refs s
            ≡ record s { world = uploaded perform host files s.world })
  unfolding send_all
  send_all-uploaded [] s h = ([], refl, tt, refl)
  send_all-uploaded (ref ∷ refs) s ((path, file), h) =
      let t = record s {
        world = (perform (upload (host ++ bytes "/upload") ref path) s.world).1;
      } in
      let (files, names, all, sent) = send_all-uploaded refs t h in
      (
        (ref, path) ∷ files,
        ap (◌∷◌ ref) names,
        (file, all),
        ap (send_all crypto config read_json perform host refs) (send_blob-HasFile ref path s file)
            ∙ sent,
      )
