-- ===== src/Http/RequestHandler/Upload.antt =====
-- An upload: the texts of what was posted are found, and no text is lost.
use camlispp.Prelude.{
  ◌≡◌, ◌≢◌, refl, ap, ◌∙◌, ◌⊎◌, inl, inr, List, [], ◌∷◌, none, some, length, All, Bool-cases,
}
use camlispp.StdString.{Bytes, bytes, str_eq, str_eq_iff, starts_with}
use camlispp.StdMap.{IsSorted}
use camlispp.BlobKey.{blobref}
use camlispp.BlobKey.Order.{key_order}
use camlispp.Config.{Config}
use camlispp.BlobIndex.{done, BlobIndex, add_blob_eq, accepted, sha1_key, sha256_key}
use camlispp.BlobIndex.Known.{IsKnown, accepted-IsKnown}
use camlispp.BlobIndex.Lookup.{get-add_blob}
use camlispp.Http.Request.{Request}
use camlispp.Http.Reply.{ok}
use camlispp.Http.UrlDecode.{url_decode}
use camlispp.Http.Multipart.{Part}
use camlispp.Http.RequestHandler.Defs.{Libraries, get_header}
use camlispp.Http.RequestHandler.Dispatch.{
  index_of, add_payload, add_parts, posted_parts, handle_put, put_answer, dispatch, path_is_bad,
  handle_request,
}
use camlispp.Http.RequestHandler.Routes.{add_parts_step, handle_request_decoded}

module _ (l : Libraries) (config : Config) where
  -- The two texts of a payload lead to a blob, if it is not empty.
  abbrev pub IsStored : BlobIndex → Part → Type 0
  IsStored j part =
      (part.payload ≡ [])
      ⊎ (IsKnown j (blobref (sha1_key l.crypto config part.payload))
          × IsKnown j (blobref (sha256_key l.crypto config part.payload)))

  -- The payloads of the parts are stored, no text that led to a blob is lost, and the map is in
  -- order.
  pub record Uploaded (parts : List Part) (i j : BlobIndex) : Type 0 where
    pub stored : All (IsStored j) parts
    pub kept : (hash : Bytes) → IsKnown i hash → IsKnown j hash
    pub sorted : IsSorted j.blobs

  add_payload_uploads :
      (part : Part) (i : BlobIndex) (payload : Bytes)
      → part.payload ≡ payload
      → IsSorted i.blobs
      → (j : BlobIndex) × (add_payload l config payload i ≡ done j) × Uploaded (part ∷ []) i j
  unfolding add_payload
  add_payload_uploads part i [] h s =
      (i, refl, record { stored = (inl h, tt); kept = λ hash k. k; sorted = s })
  add_payload_uploads part i (c ∷ cs) h s =
      let j = accepted l.crypto config (c ∷ cs) i in
      let e = add_blob_eq l.crypto config none c cs i in
      let finds = get-add_blob l.crypto config none (c ∷ cs) i j (length i.heap) s e in
      let both : IsStored j part =
        rw h (inr ((length i.heap, finds.by_sha1), (length i.heap, finds.by_sha256))) in
      (
        j,
        ap index_of e,
        record {
          stored = (both, tt);
          kept = λ hash k. accepted-IsKnown l.crypto config (c ∷ cs) i hash s k;
          sorted = finds.sorted;
        },
      )

  IsStored-kept :
      (i j : BlobIndex) (part : Part)
      → ((hash : Bytes) → IsKnown i hash → IsKnown j hash)
      → IsStored i part
      → IsStored j part
  IsStored-kept i j part kept (inl e) = inl e
  IsStored-kept i j part kept (inr (a, b)) = inr (kept _ a, kept _ b)

  add_parts_uploads :
      (parts : List Part) (i : BlobIndex)
      → IsSorted i.blobs
      → (j : BlobIndex) × (add_parts l config parts i ≡ done j) × Uploaded parts i j
  add_parts_uploads [] i s =
      (i, unfold add_parts in refl, record { stored = tt; kept = λ hash k. k; sorted = s })
  add_parts_uploads (part ∷ parts) i s =
      let (j, e, first) = add_payload_uploads part i part.payload refl s in
      let (k, f, rest) = add_parts_uploads parts j first.sorted in
      (
        k,
        add_parts_step l config part parts i j e ∙ f,
        record {
          stored = (IsStored-kept j k part rest.kept first.stored.0, rest.stored);
          kept = λ hash h. rest.kept hash (first.kept hash h);
          sorted = rest.sorted;
        },
      )

  pub dispatch_upload :
      (req : Request) (i : BlobIndex)
      → (req.method ≡ bytes "PUT") ⊎ (req.method ≡ bytes "POST")
      → dispatch l config (bytes "/upload") req i ≡ handle_put l config req i
  unfolding dispatch starts_with str_eq
  dispatch_upload req i (inl m) = rw m refl
  dispatch_upload req i (inr m) = rw m refl

  pub handle_put_typed :
      (req : Request) (i : BlobIndex)
      → get_header req.headers (bytes "Content-Type") ≢ []
      → handle_put l config req i
        ≡ put_answer (
            add_parts l config
              (posted_parts l config (get_header req.headers (bytes "Content-Type")) req.content)
              i)
  unfolding handle_put
  handle_put_typed req i typed =
      elim (Bool-cases (str_eq (get_header req.headers (bytes "Content-Type")) [])) [
        | inl e ↦ absurd (typed ((str_eq_iff _ []).0 e))
        | inr e ↦ rw e refl
      ]

-- A PUT or POST to /upload that has a Content-Type header is answered with an empty reply; then
-- both texts of each posted payload that is not empty lead to a blob, every text that led to one
-- before still does, and the map is in order. It must be in order before. The names of the parts
-- play no role.
pub handle_request-Uploaded :
    (l : Libraries) (config : Config) (req : Request) (i : BlobIndex)
    → IsSorted i.blobs
    → (req.method ≡ bytes "PUT") ⊎ (req.method ≡ bytes "POST")
    → url_decode req.uri ≡ some (bytes "/upload")
    → get_header req.headers (bytes "Content-Type") ≢ []
    → (j : BlobIndex) × (handle_request l config req i
        ≡ done (record { status = ok; headers = []; content = [] }, j))
      × Uploaded l config
          (posted_parts l config (get_header req.headers (bytes "Content-Type")) req.content)
          i
          j
unfolding path_is_bad
handle_request-Uploaded l config req i s m u typed =
    let (j, e, up) = add_parts_uploads l config _ i s in
    (
      j,
      handle_request_decoded l config req i (bytes "/upload") u
          ∙ dispatch_upload l config req i m
          ∙ handle_put_typed l config req i typed
          ∙ ap put_answer e,
      up,
    )
