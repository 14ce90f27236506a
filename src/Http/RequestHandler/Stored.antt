-- ===== src/Http/RequestHandler/Stored.antt =====
-- A blob that was added is served: a GET of its text returns the content.
use camlispp.Prelude.{
  ℕ, zero, suc, ◌≤◌, ◌≡◌, ◌≢◌, refl, sym, ap, ◌∙◌, subst, ◌⊎◌, inl, inr, true, false, [], ◌∷◌, ◌++◌,
  Option, none, some, arith, length, take, drop, get_elem?, All, append_assoc, append-nil,
  take-append-drop, length-drop,
}
use camlispp.StdString.{
  Bytes, bytes, str_eq, starts_with, find_no_first, substr, c_str_whole, decimal,
}
use camlispp.StdMap.{IsSorted}
use camlispp.BlobKey.{BlobKey, blobref}
use camlispp.BlobKey.Order.{key_order}
use camlispp.Blob.{Blob, new_blob, set_size, add_hash}
use camlispp.Config.{Config}
use camlispp.BlobIndex.{
  done, BlobIndex, key_for, add_blob, get, path_of, full_blob, sha1_key, sha256_key,
}
use camlispp.BlobIndex.Lookup.{Finds, get-add_blob}
use camlispp.BlobIndex.WriteOnce.{accepted_file}
use camlispp.Http.Request.{Request}
use camlispp.Http.Reply.{Reply, ok}
use camlispp.Http.UrlDecode.{url_decode}
use camlispp.Http.RequestHandler.Defs.{
  Libraries, read_chunks, read_file, open_file, lookup, get_header, accepted_format, blob_reply,
  handle_get, header,
}
use camlispp.Http.RequestHandler.Dispatch.{answer, path_is_bad, dispatch, handle_request}
use camlispp.Http.RequestHandler.Routes.{handle_request_decoded}

read_chunks-all :
    (f : ℕ) (rest out : Bytes) → length rest ≤ f → read_chunks f rest out ≡ out ++ rest
unfolding read_chunks
read_chunks-all zero [] out h = sym (append-nil out)
read_chunks-all zero (c ∷ cs) out h = absurd (omega arith)
read_chunks-all (suc f) [] out h = sym (append-nil out)
read_chunks-all (suc f) (c ∷ cs) out h =
    read_chunks-all f (drop 512 (c ∷ cs)) (out ++ take 512 (c ∷ cs))
      (omega (arith, length-drop 512 (c ∷ cs)))
    ∙ append_assoc out (take 512 (c ∷ cs)) (drop 512 (c ∷ cs))
    ∙ ap (◌++◌ out) (take-append-drop 512 (c ∷ cs))

-- Reading a file chunk by chunk gives its content.
pub read_file-all : (content : Bytes) → read_file content ≡ content
unfolding read_file
read_file-all content = read_chunks-all (length content) content [] (omega arith)

pub handle_get_found :
    (l : Libraries) (path : Bytes) (req : Request) (i : BlobIndex) (b : Blob) (file : Bytes)
    → lookup (substr path 1) i ≡ some b
    → open_file i.disk b.file_path ≡ some file
    → handle_get l path req i
      ≡ blob_reply l (accepted_format (get_header req.headers (bytes "Accept-Encoding"))) file
unfolding handle_get
handle_get_found l path req i b file e f = rw (e, f, handle_get) refl

lookup_at :
    (hash : Bytes) (i : BlobIndex) (p : ℕ) (b : Blob)
    → get hash i ≡ some p
    → get_elem? i.heap p ≡ some b
    → lookup hash i ≡ some b
unfolding lookup
lookup_at hash i p b e f = rw (e, lookup) f

-- A path that starts with a slash and has no dot is taken.
pub path_is_good : (cs : Bytes) → All (λ x. x ≢ b'.') cs → path_is_bad (b'/' ∷ cs) ≡ false
unfolding path_is_bad
path_is_good cs h =
    let absent = find_no_first b'.' (b'.' ∷ []) (b'/' ∷ cs) (omega arith, h) in
    rw (absent, path_is_bad) refl

-- The path of a GET of a key's text.
abbrev pub ref_path : BlobKey → Bytes
ref_path k = b'/' ∷ blobref k

-- A digest in hex has no dot.
abbrev pub HasNoDot : BlobKey → Type 0
HasNoDot k = All (λ x. x ≢ b'.') k.hash_value

-- The answer with a content as it is.
abbrev pub plain_reply : Bytes → Reply
plain_reply content = record {
  status = ok;
  headers =
      header (bytes "Content-Length") (decimal (length content))
      ∷ header (bytes "Content-Type") (bytes "application/octet-stream")
      ∷ [];
  content = content;
}

pub blob_reply-plain :
    (l : Libraries) (content : Bytes) → blob_reply l none content ≡ plain_reply content
unfolding blob_reply
blob_reply-plain l content = rw (read_file-all content) refl

module _ (l : Libraries) (config : Config) (content : Bytes) where
  -- The key is one of the two of the content.
  abbrev pub IsKeyOf : BlobKey → Type 0
  IsKeyOf k = (k ≡ sha1_key l.crypto config content) ⊎ (k ≡ sha256_key l.crypto config content)

  ref_path_no_dot : (k : BlobKey) → IsKeyOf k → HasNoDot k → All (λ x. x ≢ b'.') (blobref k)
  unfolding blobref key_for
  ref_path_no_dot k (inl e) h =
      let d = subst (λ (q : BlobKey). HasNoDot q) e h in
      rw e (omega arith, (omega arith, (omega arith, (omega arith, (omega arith, d)))))
  ref_path_no_dot k (inr e) h =
      let d = subst (λ (q : BlobKey). HasNoDot q) e h in
      rw e (
        omega arith,
        (omega arith, (omega arith, (omega arith, (omega arith, (omega arith, (omega arith, d)))))),
      )

  dispatch_get :
      (k : BlobKey) (req : Request) (j : BlobIndex)
      → IsKeyOf k
      → req.method ≡ bytes "GET"
      → dispatch l config (ref_path k) req j ≡ done (handle_get l (ref_path k) req j, j)
  unfolding dispatch blobref key_for starts_with str_eq
  dispatch_get k req j (inl e) m = rw (e, m) refl
  dispatch_get k req j (inr e) m = rw (e, m) refl

  module _ (i j : BlobIndex) (provided : Option Bytes) (p : ℕ) (sorted : IsSorted i.blobs)
      (added : add_blob l.crypto config provided content i ≡ done (some p, j)) where
    abbrev finds : Finds l.crypto config content i j p
    finds = get-add_blob l.crypto config provided content i j p sorted added

    stored_lookup :
        (k : BlobKey) → IsKeyOf k → lookup (blobref k) j ≡ some (full_blob l.crypto config content)
    stored_lookup k (inl e) = rw e (lookup_at _ j p _ finds.by_sha1 finds.blob_at)
    stored_lookup k (inr e) = rw e (lookup_at _ j p _ finds.by_sha256 finds.blob_at)

    stored_file :
        All (λ x. x ≢ 0) (path_of l.crypto config content)
        → i.disk.file (path_of l.crypto config content) ≡ none
        → i.disk.writable (path_of l.crypto config content) ≡ true
        → open_file j.disk (full_blob l.crypto config content).file_path ≡ some content
    unfolding add_hash set_size new_blob
    stored_file whole absent writable =
        ap j.disk.file (c_str_whole (path_of l.crypto config content) whole)
        ∙ accepted_file l.crypto config provided content i j p added absent writable

-- After add_blob has stored a content, a GET of either of its texts, percent-encoded or not, is
-- answered with the content and its length, and changes nothing, if the Accept-Encoding header asks
-- for no compression. The map must be in order before, the content's path without a NUL byte,
-- absent and writable, and the digest without a dot.
pub handle_request-add_blob :
    (l : Libraries) (config : Config) (content : Bytes) (i j : BlobIndex) (provided : Option Bytes)
    (p : ℕ) (k : BlobKey) (req : Request)
    → IsSorted i.blobs
    → add_blob l.crypto config provided content i ≡ done (some p, j)
    → All (λ x. x ≢ 0) (path_of l.crypto config content)
    → i.disk.file (path_of l.crypto config content) ≡ none
    → i.disk.writable (path_of l.crypto config content) ≡ true
    → IsKeyOf l config content k
    → HasNoDot k
    → req.method ≡ bytes "GET"
    → url_decode req.uri ≡ some (ref_path k)
    → accepted_format (get_header req.headers (bytes "Accept-Encoding")) ≡ none
    → handle_request l config req j ≡ done (plain_reply content, j)
handle_request-add_blob l config content i j provided p k req s e w f g h d m u n =
    let path = ref_path k in
    let good = path_is_good (blobref k) (ref_path_no_dot l config content k h d) in
    let found = stored_lookup l config content i j provided p s e k h in
    let file = stored_file l config content i j provided p s e w f g in
    handle_request_decoded l config req j path u
    ∙ rw good (
        dispatch_get l config content k req j h m
        ∙ ap (λ (r : Reply). answer r j)
            (handle_get_found l path req j _ content found file
              ∙ rw n (blob_reply-plain l content)))
