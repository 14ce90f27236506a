-- ===== src/Http/RequestHandler/Forms.antt =====
-- Uploads by the grammars of the program: a posted form is stored whole, and a form with a byte that
-- is not ASCII is answered as if it were, and nothing of it is stored.
use camlispp.Prelude.{
  ℕ, ◌<◌, ◌≤◌, ◌≡◌, ◌≢◌, refl, sym, ap, ◌∙◌, subst, ◌⊎◌, List, [], ◌∷◌, ◌++◌, some, none, arith,
  false, All, length,
}
use camlispp.StdString.{Bytes, bytes, str_eq, to_lower_copy, starts_with}
use camlispp.StdMap.{IsSorted}
use camlispp.BlobKey.{blobref}
use camlispp.BlobKey.Order.{key_order}
use camlispp.Config.{Config}
use camlispp.BlobIndex.{done, BlobIndex, sha1_key, sha256_key}
use camlispp.Qi.{Qi}
use camlispp.Http.Request.{Request}
use camlispp.Http.Reply.{Reply, ok}
use camlispp.Http.UrlDecode.{url_decode}
use camlispp.Http.Multipart.{Part, attribute_value, form_parts}
use camlispp.Http.Grammars.{qi_grammars, parse_chunks}
use camlispp.Http.Grammars.Attributes.{
  IsBoundary, form_type, parse_header_tokens-form_type, parse_header_tokens_no_space,
}
use camlispp.Http.Grammars.Chunks.{write_pieces, IsFree}
use camlispp.Http.Grammars.Forms.{
  FormPart, write_form, IsPart, payloads, contents, form_parts-write_form,
}
use camlispp.Http.Grammars.NotAscii.{parse_chunks-not_ascii}
use camlispp.Http.RequestHandler.Defs.{Libraries, get_header}
use camlispp.Http.RequestHandler.Dispatch.{
  parse_boundry_header, posted_parts, add_parts, put_answer, path_is_bad, handle_request,
}
use camlispp.Http.RequestHandler.Routes.{handle_request_decoded}
use camlispp.BlobIndex.Known.{IsKnown}
use camlispp.Http.RequestHandler.Upload.{
  IsStored, handle_request-Uploaded, dispatch_upload, handle_put_typed,
}

-- The libraries with the program's own grammars.
abbrev pub with_qi : Qi → Libraries → Libraries
with_qi qi l = record l { grammars = qi_grammars qi }

-- A PUT or POST to /upload of a form with a boundary.
pub record IsUpload (boundry : Bytes) (req : Request) : Type 0 where
  pub method_fits : (req.method ≡ bytes "PUT") ⊎ (req.method ≡ bytes "POST")
  pub decoded : url_decode req.uri ≡ some (bytes "/upload")
  pub typed : get_header req.headers (bytes "Content-Type") ≡ form_type boundry
  pub boundary : IsBoundary boundry

abbrev pub empty_ok : Reply
empty_ok = record { status = ok; headers = []; content = [] }

pub form_type_nonempty : (boundry : Bytes) → form_type boundry ≢ []
form_type_nonempty boundry e = let l = ap length e in omega arith

module _ (qi : Qi) (l : Libraries) (config : Config) (boundry : Bytes) where
  boundary-form_type :
      IsBoundary boundry
      → attribute_value
          (bytes "boundary")
          (parse_boundry_header (qi_grammars qi) (form_type boundry))
        ≡ some boundry
  unfolding parse_boundry_header attribute_value str_eq to_lower_copy
  boundary-form_type b = rw (parse_header_tokens-form_type qi boundry b, parse_boundry_header) refl

  pub posted_parts-form_parts :
      (content_type content : Bytes)
      → content_type ≡ form_type boundry
      → IsBoundary boundry
      → posted_parts (with_qi qi l) config content_type content
        ≡ form_parts (qi_grammars qi) boundry content
  unfolding posted_parts
  posted_parts-form_parts content_type content e b = rw (e, boundary-form_type b, posted_parts) refl

  -- Both texts of a content lead to a blob, if it is not empty.
  abbrev pub IsHeld : BlobIndex → Bytes → Type 0
  IsHeld j content =
      (content ≡ [])
      ⊎ (IsKnown j (blobref (sha1_key l.crypto config content))
          × IsKnown j (blobref (sha256_key l.crypto config content)))

  payloads-IsHeld :
      (j : BlobIndex) (parts : List Part)
      → All (IsStored (with_qi qi l) config j) parts
      → All (IsHeld j) (payloads parts)
  payloads-IsHeld j [] h = tt
  payloads-IsHeld j (p ∷ ps) h = (h.0, payloads-IsHeld j ps h.1)

form_parts_unread :
    (qi : Qi) (boundry input : Bytes)
    → parse_chunks qi boundry input ≡ none
    → form_parts (qi_grammars qi) boundry input ≡ []
unfolding form_parts
form_parts_unread qi boundry input e = rw (e, form_parts) refl

-- A form that is written out and posted to /upload is answered with an empty reply, and then both
-- texts of the content of each of its parts lead to a blob, unless the content is empty; no text
-- that led to a blob is lost. The map must be in order, the parts ASCII, and their delimiter must
-- not stand in them. The names of the parts play no role.
pub handle_request-write_form :
    (qi : Qi) (l : Libraries) (config : Config) (boundry : Bytes) (part : FormPart)
    (parts : List FormPart) (req : Request) (i : BlobIndex)
    → IsSorted i.blobs
    → IsUpload boundry req
    → req.content ≡ write_form boundry (part ∷ parts)
    → All (IsPart boundry) (part ∷ parts)
    → (j : BlobIndex) × (handle_request (with_qi qi l) config req i ≡ done (empty_ok, j))
      × All (IsHeld qi l config boundry j) (contents (part ∷ parts))
      × ((hash : Bytes) → IsKnown i hash → IsKnown j hash)
handle_request-write_form qi l config boundry part parts req i s up written fit =
    let typed : get_header req.headers (bytes "Content-Type") ≢ [] =
      λ e. form_type_nonempty boundry (sym up.typed ∙ e) in
    let (j, e, u) =
      handle_request-Uploaded (with_qi qi l) config req i s up.method_fits up.decoded typed in
    let read = posted_parts-form_parts qi l config boundry _ req.content up.typed up.boundary in
    let same =
      ap payloads read
      ∙ ap (λ (t : Bytes). payloads (form_parts (qi_grammars qi) boundry t)) written
      ∙ form_parts-write_form qi boundry part parts fit in
    (
      j,
      e,
      subst (All (IsHeld qi l config boundry j)) same
          (payloads-IsHeld qi l config boundry j _ u.stored),
      u.kept,
    )

-- A form whose first part has a byte that is not ASCII is answered like any other, with an empty
-- reply that says OK, but nothing of it is stored: the index is as it was. The text in front of the
-- byte is ASCII, and the delimiter does not stand in the part.
pub handle_request-not_ascii :
    (qi : Qi) (l : Libraries) (config : Config) (boundry x : Bytes) (c : ℕ) (after : Bytes)
    (pieces : List Bytes) (req : Request) (i : BlobIndex)
    → IsUpload boundry req
    → req.content ≡ write_pieces boundry ((x ++ c ∷ after) ∷ pieces)
    → All (λ d. d < 128) x
    → 128 ≤ c
    → IsFree boundry (x ++ c ∷ after)
    → handle_request (with_qi qi l) config req i ≡ done (empty_ok, i)
unfolding path_is_bad
handle_request-not_ascii qi l config boundry x c after pieces req i up written a high free =
    let typed : get_header req.headers (bytes "Content-Type") ≢ [] =
      λ e. form_type_nonempty boundry (sym up.typed ∙ e) in
    let none_read = parse_chunks-not_ascii qi boundry x c after pieces a high free in
    let no_parts = form_parts_unread qi boundry _ none_read in
    let read =
      posted_parts-form_parts qi l config boundry _ req.content up.typed up.boundary
      ∙ ap (form_parts (qi_grammars qi) boundry) written
      ∙ no_parts in
    handle_request_decoded (with_qi qi l) config req i (bytes "/upload") up.decoded
    ∙ dispatch_upload (with_qi qi l) config req i up.method_fits
    ∙ handle_put_typed (with_qi qi l) config req i typed
    ∙ ap (λ (ps : List Part). put_answer (add_parts (with_qi qi l) config ps i)) read
    ∙ (unfold add_parts in refl)

no_boundary :
    (qi : Qi) (after : Bytes)
    → starts_with after (b' ' ∷ []) ≡ false
    → attribute_value
        (bytes "boundary")
        (parse_boundry_header (qi_grammars qi) (bytes "multipart/form-data;" ++ after))
      ≡ none
unfolding parse_boundry_header attribute_value str_eq to_lower_copy
no_boundary qi after h = rw (parse_header_tokens_no_space qi after h, parse_boundry_header) refl

unposted :
    (qi : Qi) (l : Libraries) (config : Config) (content_type after content : Bytes)
    → content_type ≡ bytes "multipart/form-data;" ++ after
    → starts_with after (b' ' ∷ []) ≡ false
    → posted_parts (with_qi qi l) config content_type content ≡ []
unfolding posted_parts
unposted qi l config content_type after content e h =
    rw (e, no_boundary qi after h, posted_parts) refl

-- A PUT or POST to /upload whose Content-Type has no space behind "multipart/form-data;" is answered
-- like any other, with an empty reply that says OK, but nothing of it is stored, whatever boundary
-- the Content-Type names: the index is as it was.
pub handle_request_no_space :
    (qi : Qi) (l : Libraries) (config : Config) (after : Bytes) (req : Request) (i : BlobIndex)
    → (req.method ≡ bytes "PUT") ⊎ (req.method ≡ bytes "POST")
    → url_decode req.uri ≡ some (bytes "/upload")
    → get_header req.headers (bytes "Content-Type") ≡ bytes "multipart/form-data;" ++ after
    → starts_with after (b' ' ∷ []) ≡ false
    → handle_request (with_qi qi l) config req i ≡ done (empty_ok, i)
unfolding path_is_bad
handle_request_no_space qi l config after req i method decoded type h =
    let typed : get_header req.headers (bytes "Content-Type") ≢ [] =
      λ e. let n = ap length (sym type ∙ e) in omega arith in
    handle_request_decoded (with_qi qi l) config req i (bytes "/upload") decoded
    ∙ dispatch_upload (with_qi qi l) config req i method
    ∙ handle_put_typed (with_qi qi l) config req i typed
    ∙ ap (λ (ps : List Part). put_answer (add_parts (with_qi qi l) config ps i))
        (unposted qi l config _ after req.content type h)
    ∙ (unfold add_parts in refl)
