-- ===== src/Http/RequestHandler/Store.antt =====
-- The contract of the server: uploads put contents into a store, and a GET of a key's text answers
-- with what the store has under the key.
pub mod Replies
use camlispp.Prelude.{
  ℕ, ◌≡◌, ◌≢◌, refl, sym, ap, ◌∙◌, subst, ◌⊎◌, inl, inr, true, false, List, [], ◌∷◌, ◌++◌, Option,
  none, some, arith, length, get_elem?, All, append_assoc, Option-cases,
}
use camlispp.StdString.{Bytes, bytes, str_eq, starts_with, c_str_whole}
use camlispp.StdMap.{find}
use camlispp.BlobKey.{BlobKey, blobref, create_blob_key}
use camlispp.BlobKey.Order.{key_order}
use camlispp.BlobKey.RoundTrip.{create_blob_key-blobref}
use camlispp.Blob.{Blob}
use camlispp.Config.{Config}
use camlispp.BlobIndex.{Outcome, aborted, done, Disk, BlobIndex, empty_index, add_blob, get}
use camlispp.BlobIndex.Lookup.{get-find}
use camlispp.BlobIndex.Store.{
  Store, empty_store, file_of, file_at, content_at, put, put_all, add_all, HasRoom, IsFilled,
  IsStore, NoClashes,
}
use camlispp.BlobIndex.Store.Runs.{content_at-add_all, NoClashes-later}
use camlispp.Qi.{Qi}
use camlispp.Http.Request.{Request}
use camlispp.Http.Reply.{Reply, ok, not_found, stock_reply}
use camlispp.Http.UrlDecode.{url_decode}
use camlispp.Http.Multipart.{Part, form_parts}
use camlispp.Http.Grammars.{qi_grammars}
use camlispp.Http.Grammars.Forms.{
  FormPart, write_form, IsPart, payloads, contents, form_parts-write_form,
}
use camlispp.Http.RequestHandler.Defs.{
  Libraries, lookup, blob_at, open_file, handle_get, accepted_format, get_header,
}
use camlispp.Http.RequestHandler.Dispatch.{
  index_of, answer, put_answer, add_payload, add_parts, posted_parts, dispatch, path_is_bad,
  handle_request,
}
use camlispp.Http.RequestHandler.Routes.{add_parts_step, handle_request_decoded}
use camlispp.Http.RequestHandler.Upload.{dispatch_upload, handle_put_typed}
use camlispp.Http.RequestHandler.Stored.{
  HasNoDot, ref_path, plain_reply, handle_get_found, blob_reply-plain, path_is_good,
}
use camlispp.Http.RequestHandler.Forms.{
  with_qi, IsUpload, empty_ok, posted_parts-form_parts, form_type_nonempty,
}

-- The contents that are stored: an empty one is not.
abbrev pub stored_contents : List Bytes → List Bytes
stored_contents [] = []
stored_contents ([] ∷ cs) = stored_contents cs
stored_contents ((c ∷ content) ∷ cs) = (c ∷ content) ∷ stored_contents cs

pub stored_contents_nonempty : (cs : List Bytes) → All (λ c. c ≢ []) (stored_contents cs)
stored_contents_nonempty [] = tt
stored_contents_nonempty ([] ∷ cs) = stored_contents_nonempty cs
stored_contents_nonempty ((c ∷ content) ∷ cs) = (λ e. cc, stored_contents_nonempty cs)

-- The reply to a GET of a blob.
abbrev pub fetch_reply : Option Bytes → Reply
fetch_reply none = stock_reply not_found
fetch_reply (some content) = plain_reply content

-- A GET of the text of a key that asks for no compression.
pub record IsFetch (k : BlobKey) (req : Request) : Type 0 where
  pub typed : (k.hash_type ≡ bytes "sha1") ⊎ (k.hash_type ≡ bytes "sha256")
  pub no_dot : HasNoDot k
  pub method_fits : req.method ≡ bytes "GET"
  pub decoded : url_decode req.uri ≡ some (ref_path k)
  pub plain : accepted_format (get_header req.headers (bytes "Accept-Encoding")) ≡ none

module _ (k : BlobKey) where
  pub typed-create_blob_key :
      (k.hash_type ≡ bytes "sha1") ⊎ (k.hash_type ≡ bytes "sha256")
      → create_blob_key (blobref k) ≡ some k
  typed-create_blob_key (inl e) =
      create_blob_key-blobref k (rw e (omega arith)) (rw e (omega arith))
  typed-create_blob_key (inr e) =
      create_blob_key-blobref k (rw e (omega arith)) (rw e (omega arith))

  pub typed_no_dot :
      (k.hash_type ≡ bytes "sha1") ⊎ (k.hash_type ≡ bytes "sha256")
      → HasNoDot k
      → All (λ x. x ≢ b'.') (blobref k)
  unfolding blobref
  typed_no_dot (inl e) d =
      rw e (omega arith, (omega arith, (omega arith, (omega arith, (omega arith, d)))))
  typed_no_dot (inr e) d = rw e (
    omega arith,
    (omega arith, (omega arith, (omega arith, (omega arith, (omega arith, (omega arith, d)))))),
  )

  pub dispatch_fetch :
      (l : Libraries) (config : Config) (req : Request) (i : BlobIndex)
      → (k.hash_type ≡ bytes "sha1") ⊎ (k.hash_type ≡ bytes "sha256")
      → req.method ≡ bytes "GET"
      → dispatch l config (ref_path k) req i ≡ done (handle_get l (ref_path k) req i, i)
  unfolding dispatch blobref starts_with str_eq
  dispatch_fetch l config req i (inl e) m = rw (e, m) refl
  dispatch_fetch l config req i (inr e) m = rw (e, m) refl

module _ (l : Libraries) (k : BlobKey) (req : Request) (i : BlobIndex)
    (read : create_blob_key (blobref k) ≡ some k)
    (plain : accepted_format (get_header req.headers (bytes "Accept-Encoding")) ≡ none) where
  lookup_absent : find k i.blobs ≡ none → lookup (blobref k) i ≡ none
  unfolding lookup
  lookup_absent e = ap (blob_at i) (get-find (blobref k) k i read ∙ e)

  lookup_there :
      (p : ℕ) (b : Blob)
      → find k i.blobs ≡ some p
      → get_elem? i.heap p ≡ some b
      → lookup (blobref k) i ≡ some b
  unfolding lookup
  lookup_there p b e f = ap (blob_at i) (get-find (blobref k) k i read ∙ e) ∙ f

  handle_get_absent :
      find k i.blobs ≡ none → handle_get l (ref_path k) req i ≡ stock_reply not_found
  unfolding handle_get
  handle_get_absent e = rw (lookup_absent e, handle_get) refl

  -- A GET shows what the store has.
  pub handle_get-content_at :
      IsFilled i → handle_get l (ref_path k) req i ≡ fetch_reply (content_at i k)
  handle_get-content_at filled = elim (Option-cases (find k i.blobs)) [
    | inl e ↦
        handle_get_absent e ∙ sym (ap (λ (o : Option ℕ). fetch_reply (file_at i.heap i.disk o)) e)
    | inr (p, e) ↦
        let (b, c, at, held, whole) = filled k p e in
        let shown = ap (file_at i.heap i.disk) e ∙ ap (file_of i.disk) at ∙ held in
        let file : open_file i.disk b.file_path ≡ some c =
          ap i.disk.file (c_str_whole b.file_path whole) ∙ held in
        handle_get_found l (ref_path k) req i b c (lookup_there p b e at) file
        ∙ rw plain (blob_reply-plain l c)
        ∙ sym (ap fetch_reply shown)
  ]

-- A GET of the text of a key is answered with what the index shows under the key.
pub handle_request-content_at :
    (l : Libraries) (config : Config) (k : BlobKey) (req : Request) (i : BlobIndex)
    → IsFetch k req
    → IsFilled i
    → handle_request l config req i ≡ done (fetch_reply (content_at i k), i)
handle_request-content_at l config k req i f filled =
    let good = path_is_good (blobref k) (typed_no_dot k f.typed f.no_dot) in
    handle_request_decoded l config req i (ref_path k) f.decoded
    ∙ rw good (
        dispatch_fetch k l config req i f.typed f.method_fits
        ∙ ap (λ (r : Reply). answer r i)
            (handle_get-content_at l k req i (typed-create_blob_key k f.typed) f.plain filled))

module _ (qi : Qi) (l : Libraries) (config : Config) where
  abbrev libraries : Libraries
  libraries = with_qi qi l

  abbrev then_parts : List Part → Outcome BlobIndex → Outcome BlobIndex
  then_parts parts o = elim o [ aborted ↦ aborted | done j ↦ add_parts libraries config parts j ]

  abbrev then_all : List Bytes → Outcome (Option ℕ × BlobIndex) → Outcome BlobIndex
  then_all cs o = elim o [ aborted ↦ aborted | done (r, j) ↦ add_all l.crypto config cs j ]

  then_same :
      (parts : List Part) (o : Outcome (Option ℕ × BlobIndex))
      → ((j : BlobIndex)
          → add_parts libraries config parts j
            ≡ add_all l.crypto config (stored_contents (payloads parts)) j)
      → then_parts parts (index_of o) ≡ then_all (stored_contents (payloads parts)) o
  then_same parts aborted h = refl
  then_same parts (done (r, j)) h = h j

  add_parts-cons :
      (part : Part) (parts : List Part) (i : BlobIndex) (o : Outcome BlobIndex)
      → add_payload libraries config part.payload i ≡ o
      → add_parts libraries config (part ∷ parts) i ≡ then_parts parts o
  unfolding add_parts
  add_parts-cons part parts i o e = rw (e, add_parts) refl

  add_parts_step_all :
      (part : Part) (parts : List Part) (i : BlobIndex) (payload : Bytes)
      → part.payload ≡ payload
      → ((j : BlobIndex)
          → add_parts libraries config parts j
            ≡ add_all l.crypto config (stored_contents (payloads parts)) j)
      → add_parts libraries config (part ∷ parts) i
        ≡ add_all l.crypto config (stored_contents (payload ∷ payloads parts)) i
  unfolding add_payload
  add_parts_step_all part parts i [] e h =
      add_parts-cons part parts i (done i) (ap (λ (t : Bytes). add_payload libraries config t i) e)
      ∙ h i
  add_parts_step_all part parts i (c ∷ cs) e h =
      let o = add_blob l.crypto config none (c ∷ cs) i in
      add_parts-cons part parts i (index_of o)
        (ap (λ (t : Bytes). add_payload libraries config t i) e)
      ∙ then_same parts o h

  -- The loop over the parts is the loop of add_blob over their contents.
  pub add_parts-add_all :
      (parts : List Part) (i : BlobIndex)
      → add_parts libraries config parts i
        ≡ add_all l.crypto config (stored_contents (payloads parts)) i
  add_parts-add_all [] i = unfold add_parts in refl
  add_parts-add_all (part ∷ parts) i =
      add_parts_step_all part parts i part.payload refl (add_parts-add_all parts)
