-- ===== src/Http/RequestHandler/Routes.antt =====
-- What each route does to the index, and what it answers.
use camlispp.Prelude.{
  ◌≡◌, ◌≢◌, refl, sym, ap, ◌∙◌, ◌⊎◌, inl, inr, true, false, List, [], ◌∷◌, none, some, arith,
  if◌then◌else◌, Bool-cases, Option-cases, &&_true, or_of, if-P,
}
use camlispp.StdString.{Bytes, bytes, str_eq, str_eq_iff, substr, starts_with}
use camlispp.Blob.{Blob}
use camlispp.Config.{Config}
use camlispp.BlobIndex.{Outcome, aborted, done, BlobIndex, add_blob_eq, accepted}
use camlispp.Http.Request.{Request}
use camlispp.Http.Reply.{Reply, bad_request, not_found, stock_reply}
use camlispp.Http.UrlDecode.{url_decode}
use camlispp.Http.Multipart.{Part}
use camlispp.Http.RequestHandler.Defs.{
  Libraries, get_header, handle_static, handle_check, handle_get, lookup, open_file, blob_reply,
  accepted_format,
}
use camlispp.Http.RequestHandler.Queries.{
  handle_stat, handle_enumerate, json_reply, stat_json, stat_refs,
}
use camlispp.Http.RequestHandler.Dispatch.{
  add_parts, add_payload, index_of, put_answer, handle_put, posted_parts, path_is_bad, dispatch,
  handle_request,
}

abbrev pub Returns {ℓ} : {A : Type ℓ} → Outcome A → Type ℓ
Returns {A} o = (a : A) × (o ≡ done a)

put_answer-Returns : (o : Outcome BlobIndex) → Returns o → Returns (put_answer o)
put_answer-Returns aborted (i, e) = absurd (cc)
put_answer-Returns (done i) r = (_, refl)

-- A GET of a blob is not found, or answered with the file of the blob.
pub handle_get-cases :
    (l : Libraries) (path : Bytes) (req : Request) (i : BlobIndex)
    → (handle_get l path req i ≡ stock_reply not_found)
      ⊎ ((b : Blob) × (file : Bytes) × (lookup (substr path 1) i ≡ some b)
          × (open_file i.disk b.file_path ≡ some file)
          × (handle_get l path req i
              ≡ blob_reply l
                  (accepted_format (get_header req.headers (bytes "Accept-Encoding")))
                  file))
unfolding handle_get
handle_get-cases l path req i = elim (Option-cases (lookup (substr path 1) i)) [
  | inl e ↦ inl (rw (e, handle_get) refl)
  | inr (b, e) ↦ elim (Option-cases (open_file i.disk b.file_path)) [
    | inl f ↦ inl (rw (e, f, handle_get) refl)
    | inr (file, f) ↦ inr (b, file, e, f, rw (e, f, handle_get) refl)
  ]
]

-- handle_stat answers every request with the blobs that it finds: the test for "camliversion=1"
-- refuses none, whatever the path and the method.
pub handle_stat_answers :
    (l : Libraries) (path : Bytes) (req : Request) (i : BlobIndex)
    → handle_stat l path req i ≡ json_reply l (stat_json i (stat_refs l path req))
unfolding handle_stat
handle_stat_answers l path req i = ground arith

done-injective {ℓ} : {A : Type ℓ} {x y : A} → done x ≡ done y → x ≡ y
done-injective e = cc

-- The two ways through handle_request.
pub handle_request_undecoded :
    (l : Libraries) (config : Config) (req : Request) (i : BlobIndex)
    → url_decode req.uri ≡ none
    → handle_request l config req i ≡ done (stock_reply bad_request, i)
unfolding handle_request
handle_request_undecoded l config req i e = rw (e, handle_request)

pub handle_request_decoded :
    (l : Libraries) (config : Config) (req : Request) (i : BlobIndex) (path : Bytes)
    → url_decode req.uri ≡ some path
    → handle_request l config req i ≡ (
        if path_is_bad path
        then done (stock_reply bad_request, i)
        else dispatch l config path req i)
unfolding handle_request
handle_request_decoded l config req i path e = rw (e, handle_request)

module _ (l : Libraries) (config : Config) where
  pub add_parts_step :
      (part : Part) (parts : List Part) (i j : BlobIndex)
      → add_payload l config part.payload i ≡ done j
      → add_parts l config (part ∷ parts) i ≡ add_parts l config parts j
  unfolding add_parts
  add_parts_step part parts i j e = rw (e, add_parts)

  add_payload-Returns : (payload : Bytes) (i : BlobIndex) → Returns (add_payload l config payload i)
  unfolding add_payload
  add_payload-Returns [] i = (i, refl)
  add_payload-Returns (c ∷ cs) i =
      (accepted l.crypto config (c ∷ cs) i, ap index_of (add_blob_eq l.crypto config none c cs i))

  add_parts-Returns : (parts : List Part) (i : BlobIndex) → Returns (add_parts l config parts i)
  add_parts-Returns [] i = (i, unfold add_parts in refl)
  add_parts-Returns (part ∷ parts) i =
      let (j, e) = add_payload-Returns part.payload i in
      let (k, f) = add_parts-Returns parts j in (k, add_parts_step part parts i j e ∙ f)

  handle_put-Returns : (req : Request) (i : BlobIndex) → Returns (handle_put l config req i)
  unfolding handle_put
  handle_put-Returns req i =
      let content_type = get_header req.headers (bytes "Content-Type") in
      let parts = posted_parts l config content_type req.content in
      if-P Returns (str_eq content_type []) _ _ (λ _. (_, refl))
        λ _. put_answer-Returns (add_parts l config parts i) (add_parts-Returns parts i)

module _ (l : Libraries) (config : Config) (path : Bytes) (req : Request) (i : BlobIndex) where
  -- The handler that answers a decoded path, by the text in front of the path and the method.
  pub data Route (o : Outcome (Reply × BlobIndex)) : Type 0 where
    static :
        starts_with path (bytes "/static/") ≡ true
        → o ≡ done (handle_static config path i, i)
        → Route o
    stat :
        starts_with path (bytes "/stat") ≡ true → o ≡ done (handle_stat l path req i, i) → Route o
    enumerate :
        starts_with path (bytes "/enumerate-blobs") ≡ true
        → req.method ≡ bytes "GET"
        → o ≡ done (handle_enumerate l path i, i)
        → Route o
    check : req.method ≡ bytes "HEAD" → o ≡ done (handle_check path i, i) → Route o
    get : req.method ≡ bytes "GET" → o ≡ done (handle_get l path req i, i) → Route o
    put :
        (req.method ≡ bytes "PUT") ⊎ (req.method ≡ bytes "POST")
        → o ≡ handle_put l config req i
        → Route o
    refuse : o ≡ done (stock_reply bad_request, i) → Route o

  pub dispatch-Route : Route (dispatch l config path req i)
  dispatch-Route =
      let is_get = str_eq_iff req.method (bytes "GET") in
      let is_head = str_eq_iff req.method (bytes "HEAD") in
      let is_put = str_eq_iff req.method (bytes "PUT") in
      let is_post = str_eq_iff req.method (bytes "POST") in
      unfold dispatch in
      if-P Route _ _ _ (λ h. static h refl)
        λ _.
          if-P Route _ _ _ (λ h. stat h refl)
            λ _.
              if-P Route _ _ _ (λ h. let (a, b) = &&_true _ _ h in enumerate a (is_get.0 b) refl)
                λ _.
                  if-P Route _ _ _ (λ h. check (is_head.0 h) refl)
                    λ _.
                      if-P Route _ _ _ (λ h. get (is_get.0 h) refl)
                        λ _.
                          if-P Route _ _ _ (λ h. put (or_of h is_put is_post) refl) λ _. refuse refl

  Route-Returns : (o : Outcome (Reply × BlobIndex)) → Route o → Returns o
  Route-Returns o (static _ e) = (_, e)
  Route-Returns o (stat _ e) = (_, e)
  Route-Returns o (enumerate _ _ e) = (_, e)
  Route-Returns o (check _ e) = (_, e)
  Route-Returns o (get _ e) = (_, e)
  Route-Returns o (put _ e) = rw e (handle_put-Returns l config req i)
  Route-Returns o (refuse e) = (_, e)

  Route-read_only :
      (j : BlobIndex) (rep : Reply)
      → req.method ≢ bytes "PUT"
      → req.method ≢ bytes "POST"
      → Route (done (rep, j))
      → j ≡ i
  Route-read_only j rep np nq (static _ e) = cc
  Route-read_only j rep np nq (stat _ e) = cc
  Route-read_only j rep np nq (enumerate _ _ e) = cc
  Route-read_only j rep np nq (check _ e) = cc
  Route-read_only j rep np nq (get _ e) = cc
  Route-read_only j rep np nq (put (inl h) e) = absurd (np h)
  Route-read_only j rep np nq (put (inr h) e) = absurd (nq h)
  Route-read_only j rep np nq (refuse e) = cc

module _ (l : Libraries) (config : Config) (req : Request) (i : BlobIndex) where
  -- Every request is answered: no way through the handlers reaches the assert on an empty blob.
  pub handle_request-Returns : Returns (handle_request l config req i)
  handle_request-Returns = elim (Option-cases (url_decode req.uri)) [
    | inl e ↦ (_, handle_request_undecoded l config req i e)
    | inr (path, e) ↦
        let (z, f) =
          if-P Returns (path_is_bad path) (done (stock_reply bad_request, i))
            (dispatch l config path req i) (λ _. (_, refl))
            (λ _. Route-Returns l config path req i _ (dispatch-Route l config path req i)) in
        (z, handle_request_decoded l config req i path e ∙ f)
  ]

  -- A request whose answer is known was refused, or went to one of the handlers.
  pub handle_request-cases :
      (z : Reply × BlobIndex)
      → handle_request l config req i ≡ done z
      → (z ≡ (stock_reply bad_request, i))
        ⊎ ((path : Bytes) × (url_decode req.uri ≡ some path)
            × (path_is_bad path ≡ false)
            × Route l config path req i (done z))
  handle_request-cases z e = elim (Option-cases (url_decode req.uri)) [
    | inl d ↦ inl (done-injective (sym e ∙ handle_request_undecoded l config req i d))
    | inr (path, d) ↦
        let f = sym e ∙ handle_request_decoded l config req i path d in
        elim (Bool-cases (path_is_bad path)) [
          | inl bad ↦ inl (done-injective (rw bad at f))
          | inr good ↦
              let g : done z ≡ dispatch l config path req i = rw good at f in
              inr (path, d, good, rw g (dispatch-Route l config path req i))
        ]
  ]

  -- A request whose method is neither PUT nor POST leaves the index, its blobs and its files as
  -- they are.
  pub handle_request_read_only :
      (j : BlobIndex) (rep : Reply)
      → req.method ≢ bytes "PUT"
      → req.method ≢ bytes "POST"
      → handle_request l config req i ≡ done (rep, j)
      → j ≡ i
  handle_request_read_only j rep np nq e = elim (handle_request-cases (rep, j) e) [
    | inl z ↦ ap (λ (q : Reply × BlobIndex). q.1) z
    | inr (path, d, good, route) ↦ Route-read_only l config path req i j rep np nq route
  ]
