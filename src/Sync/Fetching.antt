-- ===== src/Sync/Fetching.antt =====
-- What the loop that gets leaves behind: the texts of the other server lead to a blob here too.
use camlispp.Prelude.{
  ℕ, ◌≡◌, ◌≢◌, refl, ap, ◌∙◌, subst, inl, inr, true, List, [], ◌∷◌, Option, none, some, length, All,
  Option-cases, or_of,
}
use camlispp.StdString.{Bytes, str_eq_iff}
use camlispp.StdMap.{IsSorted}
use camlispp.BlobKey.{blobref}
use camlispp.BlobKey.Order.{key_order}
use camlispp.Config.{Config}
use camlispp.Hash.{Crypto}
use camlispp.BlobIndex.{
  done, BlobIndex, add_blob, add_blob_eq, get, fits, accepted, sha1_key, sha256_key,
}
use camlispp.BlobIndex.Known.{IsKnown, accepted-IsKnown}
use camlispp.BlobIndex.Lookup.{get-add_blob}
use camlispp.Http.RequestHandler.{Json}
use camlispp.Sync.Urls.{build_blob_url}
use camlispp.Sync.Host.{Call, fetch, State, kept, store_fetched, fetch_blob, fetch_missing}

-- A content that is not empty, and the text of one of its two keys.
abbrev pub IsContentOf : Crypto → Config → Bytes → Bytes → Type 0
IsContentOf crypto config ref content =
    (content ≢ []) × (fits crypto config content (some ref) ≡ true)

module _ {W : Type 0} (crypto : Crypto) (config : Config) (read_json : Bytes → Option Json)
    (perform : Call → W → Option Bytes × W) (host : Bytes) where
  -- The other server answers with a content of the text, and is as it was.
  abbrev pub IsServed : Bytes → Type 0
  IsServed ref =
      (content : Bytes) × IsContentOf crypto config ref content
      × ((w : W) → perform (fetch (build_blob_url host ref)) w ≡ (some content, w))

  abbrev stored_state : Bytes → State W → State W
  stored_state content s = record s { index = accepted crypto config content s.index }

  add_blob_fits :
      (ref content : Bytes) (i : BlobIndex)
      → IsContentOf crypto config ref content
      → add_blob crypto config (some ref) content i
        ≡ done (some (length i.heap), accepted crypto config content i)
  add_blob_fits ref [] i h = absurd (h.0 refl)
  add_blob_fits ref (c ∷ cs) i h = add_blob_eq crypto config (some ref) c cs i ∙ rw h.1 refl

  fetch_blob-IsServed :
      (ref : Bytes) (s : State W) (v : IsServed ref)
      → fetch_blob crypto config read_json perform host ref s ≡ done (stored_state v.0 s)
  unfolding fetch_blob store_fetched
  fetch_blob-IsServed ref s (content, fit, answer) =
      ap
        (λ (r : Option Bytes × W).
          store_fetched crypto config read_json perform ref r.0 (record s { world = r.1 }))
        (answer s.world)
      ∙ ap (kept crypto config read_json perform s) (add_blob_fits ref content s.index fit)

  accepted-knows :
      (ref content : Bytes) (i : BlobIndex)
      → IsSorted i.blobs
      → IsContentOf crypto config ref content
      → IsKnown (accepted crypto config content i) ref
  accepted-knows ref content i sorted fit =
      let j = accepted crypto config content i in
      let finds =
        get-add_blob crypto config (some ref) content i j (length i.heap) sorted
          (add_blob_fits ref content i fit) in
      let one = sha1_key crypto config content in
      let two = sha256_key crypto config content in
      elim (or_of fit.1 (str_eq_iff (blobref one) ref) (str_eq_iff (blobref two) ref)) [
        | inl e ↦ subst (IsKnown j) e (length i.heap, finds.by_sha1)
        | inr e ↦ subst (IsKnown j) e (length i.heap, finds.by_sha256)
      ]

  accepted-IsSorted :
      (ref content : Bytes) (i : BlobIndex)
      → IsSorted i.blobs
      → IsContentOf crypto config ref content
      → IsSorted (accepted crypto config content i).blobs
  accepted-IsSorted ref content i sorted fit =
      (get-add_blob crypto config (some ref) content i _ (length i.heap) sorted
        (add_blob_fits ref content i fit)).sorted

  -- What is left behind texts that were gone through.
  pub record Fetched (refs : List Bytes) (s t : State W) : Type 0 where
    pub known : All (IsKnown t.index) refs
    pub kept_texts : (hash : Bytes) → IsKnown s.index hash → IsKnown t.index hash
    pub sorted : IsSorted t.index.blobs

  fetch_missing-known :
      (ref : Bytes) (refs : List Bytes) (p : ℕ) (s : State W)
      → get ref s.index ≡ some p
      → fetch_missing crypto config read_json perform host (ref ∷ refs) s
        ≡ fetch_missing crypto config read_json perform host refs s
  unfolding fetch_missing
  fetch_missing-known ref refs p s e = rw (e, fetch_missing) refl

  fetch_missing-absent :
      (ref : Bytes) (refs : List Bytes) (s u : State W)
      → get ref s.index ≡ none
      → fetch_blob crypto config read_json perform host ref s ≡ done u
      → fetch_missing crypto config read_json perform host (ref ∷ refs) s
        ≡ fetch_missing crypto config read_json perform host refs u
  unfolding fetch_missing
  fetch_missing-absent ref refs s u e f = rw (e, f, fetch_missing) refl

  pub fetch_missing-Fetched :
      (refs : List Bytes) (s : State W)
      → IsSorted s.index.blobs
      → All IsServed refs
      → (t : State W) × (fetch_missing crypto config read_json perform host refs s ≡ done t)
        × Fetched refs s t
  fetch_missing-Fetched [] s sorted h = (
    s,
    unfold fetch_missing in refl,
    record { known = tt; kept_texts = λ hash k. k; sorted = sorted },
  )
  fetch_missing-Fetched (ref ∷ refs) s sorted h = elim (Option-cases (get ref s.index)) [
    | inr (p, e) ↦
        let (t, f, r) = fetch_missing-Fetched refs s sorted h.1 in
        (
          t,
          fetch_missing-known ref refs p s e ∙ f,
          record {
            known = (r.kept_texts ref (p, e), r.known);
            kept_texts = r.kept_texts;
            sorted = r.sorted;
          },
        )
    | inl e ↦
        let v : IsServed ref = h.0 in
        let u = stored_state v.0 s in
        let (t, f, r) =
          fetch_missing-Fetched refs u (accepted-IsSorted ref v.0 s.index sorted v.1) h.1 in
        (
          t,
          fetch_missing-absent ref refs s u e (fetch_blob-IsServed ref s v) ∙ f,
          record {
            known = (r.kept_texts ref (accepted-knows ref v.0 s.index sorted v.1), r.known);
            kept_texts = λ hash k.
                r.kept_texts hash (accepted-IsKnown crypto config v.0 s.index hash sorted k);
            sorted = r.sorted;
          },
        )
  ]
