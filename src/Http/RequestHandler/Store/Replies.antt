-- ===== src/Http/RequestHandler/Store/Replies.antt =====
-- The replies to uploads and GETs are those of the store.
use camlispp.Prelude.{◌≡◌, ◌≢◌, refl, sym, ap, ◌∙◌, List, [], ◌∷◌, ◌++◌, All}
use camlispp.StdString.{Bytes, bytes}
use camlispp.StdMap.{find}
use camlispp.BlobKey.{BlobKey}
use camlispp.BlobKey.Order.{key_order}
use camlispp.Config.{Config}
use camlispp.BlobIndex.{Outcome, aborted, done, Disk, BlobIndex, empty_index}
use camlispp.BlobIndex.Store.{
  Store, empty_store, content_at, put_all, add_all, HasRoom, IsStore, NoClashes,
}
use camlispp.BlobIndex.Store.Runs.{content_at-add_all, NoClashes-later}
use camlispp.Qi.{Qi}
use camlispp.Http.Request.{Request}
use camlispp.Http.Reply.{Reply}
use camlispp.Http.Multipart.{form_parts}
use camlispp.Http.Grammars.{qi_grammars}
use camlispp.Http.Grammars.Forms.{
  FormPart, write_form, IsPart, payloads, contents, form_parts-write_form,
}
use camlispp.Http.RequestHandler.Defs.{Libraries, get_header}
use camlispp.Http.RequestHandler.Dispatch.{put_answer, posted_parts, path_is_bad, handle_request}
use camlispp.Http.RequestHandler.Routes.{handle_request_decoded}
use camlispp.Http.RequestHandler.Upload.{dispatch_upload, handle_put_typed}
use camlispp.Http.RequestHandler.Forms.{
  with_qi, IsUpload, empty_ok, posted_parts-form_parts, form_type_nonempty,
}
use camlispp.BlobIndex.Store.{empty_index-IsStore}
use camlispp.Http.RequestHandler.Store.{
  stored_contents, stored_contents_nonempty, fetch_reply, IsFetch, handle_request-content_at,
  add_parts-add_all,
}

-- What a client does.
pub data Op : Type 0 where
  upload : Bytes → FormPart → List FormPart → Op
  fetch : BlobKey → Op

-- A request that does it.
abbrev pub Does : Op → Request → Type 0
Does (upload boundry part parts) req =
    IsUpload boundry req
    × (req.content ≡ write_form boundry (part ∷ parts))
    × All (IsPart boundry) (part ∷ parts)
Does (fetch k) req = IsFetch k req

abbrev pub op_contents : Op → List Bytes
op_contents (upload boundry part parts) = stored_contents (contents (part ∷ parts))
op_contents (fetch k) = []

abbrev pub all_contents : List (Op × Request) → List Bytes
all_contents [] = []
all_contents ((op, req) ∷ ops) = op_contents op ++ all_contents ops

module _ (qi : Qi) (l : Libraries) (config : Config) where
  -- the store's answer to an operation, and the store behind it
  abbrev pub op_reply : Op → Store → Reply
  op_reply (upload boundry part parts) s = empty_ok
  op_reply (fetch k) s = fetch_reply (s k)

  abbrev pub store_behind : Op → Store → Store
  store_behind op s = put_all l.crypto config (op_contents op) s

  abbrev pub store_replies : List (Op × Request) → Store → List Reply
  store_replies [] s = []
  store_replies ((op, req) ∷ ops) s = op_reply op s ∷ store_replies ops (store_behind op s)

  -- the server's replies to the requests, one after the other
  abbrev pub with_reply : Reply → Outcome (List Reply) → Outcome (List Reply)
  with_reply rep aborted = aborted
  with_reply rep (done reps) = done (rep ∷ reps)

  abbrev pub server_replies : List (Op × Request) → BlobIndex → Outcome (List Reply)
  server_replies [] i = done []
  server_replies ((op, req) ∷ ops) i = elim (handle_request (with_qi qi l) config req i) [
    | aborted ↦ aborted
    | done (rep, j) ↦ with_reply rep (server_replies ops j)
  ]

  posted :
      (boundry : Bytes) (req : Request) (part : FormPart) (parts : List FormPart)
      → Does (upload boundry part parts) req
      → payloads (
          posted_parts
            (with_qi qi l)
            config
            (get_header req.headers (bytes "Content-Type"))
            req.content)
        ≡ contents (part ∷ parts)
  posted boundry req part parts (up, written, fit) =
      ap payloads (posted_parts-form_parts qi l config boundry _ req.content up.typed up.boundary)
      ∙ ap (λ (t : Bytes). payloads (form_parts (qi_grammars qi) boundry t)) written
      ∙ form_parts-write_form qi boundry part parts fit

  -- One operation: the reply of the store, and an index that shows the store behind it.
  abbrev Served : Op → Request → List Bytes → BlobIndex → Type 0
  Served op req later i =
      (j : BlobIndex) × (handle_request (with_qi qi l) config req i
        ≡ done (op_reply op (content_at i), j))
      × IsStore j
      × (content_at j ≡ store_behind op (content_at i))
      × All (HasRoom l.crypto config j.disk) later

  serve_upload :
      (boundry : Bytes) (part : FormPart) (parts : List FormPart) (req : Request)
      (later : List Bytes) (i : BlobIndex)
      → Does (upload boundry part parts) req
      → NoClashes l.crypto config (stored_contents (contents (part ∷ parts)) ++ later)
      → All (HasRoom l.crypto config i.disk) (stored_contents (contents (part ∷ parts)) ++ later)
      → IsStore i
      → Served (upload boundry part parts) req later i
  unfolding path_is_bad
  serve_upload boundry part parts req later i does clash room s =
      let up = does.0 in
      let typed : get_header req.headers (bytes "Content-Type") ≢ [] =
        λ e. form_type_nonempty boundry (sym up.typed ∙ e) in
      let cs = stored_contents (contents (part ∷ parts)) in
      let (j, e, t, shown, more) =
        content_at-add_all l.crypto config cs later i
          (stored_contents_nonempty (contents (part ∷ parts))) clash room s in
      let added =
        add_parts-add_all qi l config _ i
        ∙ ap (λ (ps : List Bytes). add_all l.crypto config (stored_contents ps) i)
            (posted boundry req part parts does)
        ∙ e in
      (
        j,
        handle_request_decoded (with_qi qi l) config req i (bytes "/upload") up.decoded
            ∙ dispatch_upload (with_qi qi l) config req i up.method_fits
            ∙ handle_put_typed (with_qi qi l) config req i typed
            ∙ ap put_answer added,
        t,
        shown,
        more,
      )

  serve_fetch :
      (k : BlobKey) (req : Request) (later : List Bytes) (i : BlobIndex)
      → IsFetch k req
      → All (HasRoom l.crypto config i.disk) later
      → IsStore i
      → Served (fetch k) req later i
  serve_fetch k req later i f room s =
      (i, handle_request-content_at (with_qi qi l) config k req i f s.filled, s, refl, room)

  serve-Served :
      (op : Op) (req : Request) (later : List Bytes) (i : BlobIndex)
      → Does op req
      → NoClashes l.crypto config (op_contents op ++ later)
      → All (HasRoom l.crypto config i.disk) (op_contents op ++ later)
      → IsStore i
      → Served op req later i
  serve-Served (upload boundry part parts) req later i = serve_upload boundry part parts req later i
  serve-Served (fetch k) req later i = λ d clash. serve_fetch k req later i d

  pub server_replies-from :
      (ops : List (Op × Request)) (i : BlobIndex)
      → All (λ o. Does o.0 o.1) ops
      → NoClashes l.crypto config (all_contents ops)
      → All (HasRoom l.crypto config i.disk) (all_contents ops)
      → IsStore i
      → server_replies ops i ≡ done (store_replies ops (content_at i))
  server_replies-from [] i h clash room s = refl
  server_replies-from ((op, req) ∷ ops) i h clash room s =
      let (j, e, t, shown, more) = serve-Served op req (all_contents ops) i h.0 clash room s in
      let rest =
        server_replies-from ops j h.1
          (NoClashes-later l.crypto config (op_contents op) (all_contents ops) clash) more t in
      rw (e, server_replies)
        (ap (with_reply (op_reply op (content_at i)))
          (rest ∙ ap (λ (st : Store). done (store_replies ops st)) shown))

-- The server refines the store: whatever uploads and GETs come, in whatever order, on an index that
-- is empty at first, the server gives the replies of the store: an upload puts its contents that
-- are not empty under their two keys, and a GET of a key's text shows the content that was put
-- under the key last, or is not found. A form is written as the grammars read it, a GET asks for
-- no compression and for a key of the two types without a dot, no two different contents have one
-- path, and the path of each has no NUL byte, and no file and can be written, or a file with that
-- content. The names of the parts play no role: a payload is stored under its own two keys,
-- whatever its part is named.
pub server_replies-store_replies :
    (qi : Qi) (l : Libraries) (config : Config) (d : Disk) (ops : List (Op × Request))
    → All (λ o. Does o.0 o.1) ops
    → NoClashes l.crypto config (all_contents ops)
    → All (HasRoom l.crypto config d) (all_contents ops)
    → server_replies qi l config ops (empty_index d)
      ≡ done (store_replies qi l config ops empty_store)
unfolding find
server_replies-store_replies qi l config d ops h clash room =
    server_replies-from qi l config ops (empty_index d) h clash room (empty_index-IsStore d)
