-- ===== src/Http/RequestHandler/ContentLength.antt =====
-- The Content-Length of what is answered.
use camlispp.Prelude.{
  ◌<◌, ◌^◌, ◌≡◌, refl, sym, ap, ◌∙◌, inl, inr, false, ◌++◌, Option, length, Option-cases,
}
use camlispp.StdString.{Bytes, bytes, str_eq, str_eq_iff, decimal}
use camlispp.Config.{Config}
use camlispp.BlobIndex.{Outcome, done, BlobIndex}
use camlispp.Http.Request.{Request}
use camlispp.Http.RequestParser.{atoi}
use camlispp.Http.RequestParser.Decimal.{atoi-decimal}
use camlispp.Http.Reply.{Reply, Status, bad_request, not_found, stock_reply}
use camlispp.Http.RequestHandler.Defs.{
  Json, Libraries, Format, get_header, handle_static, handle_get, blob_reply, open_file,
  static_path,
}
use camlispp.Http.RequestHandler.Queries.{handle_enumerate, json_reply}
use camlispp.Http.RequestHandler.Dispatch.{handle_request}
use camlispp.Http.RequestHandler.Routes.{
  Route, static, stat, enumerate, check, get, put, refuse, handle_request-cases, handle_get-cases,
  handle_stat_answers,
}

reply_of :
    {rep rep' : Reply} {i j : BlobIndex}
    → ◌≡◌ {A = Outcome (Reply × BlobIndex)} (done (rep, i)) (done (rep', j))
    → rep ≡ rep'
reply_of e = cc

methods_differ : {m a b : Bytes} → m ≡ a → m ≡ b → str_eq a b ≡ false → ⊥
methods_differ {m} {a} {b} x y d = let same = (str_eq_iff a b).1 (sym x ∙ y) in cc (same, d)

-- The header gives the length of the content.
abbrev pub HasLength : Reply → Type 0
HasLength rep = get_header rep.headers (bytes "Content-Length") ≡ decimal (length rep.content)

stock_reply-HasLength : (s : Status) → HasLength (stock_reply s)
unfolding stock_reply get_header
stock_reply-HasLength s = refl

json_reply-HasLength : (l : Libraries) (v : Json) → HasLength (json_reply l v)
unfolding get_header
json_reply-HasLength l v = refl

blob_reply-HasLength :
    (l : Libraries) (f : Option Format) (file : Bytes) → HasLength (blob_reply l f file)
unfolding blob_reply get_header
blob_reply-HasLength l f file = refl

handle_static-HasLength :
    (config : Config) (path : Bytes) (i : BlobIndex) → HasLength (handle_static config path i)
unfolding handle_static get_header
handle_static-HasLength config path i =
    elim (Option-cases (open_file i.disk (config.static_directory ++ static_path path))) [
      | inl e ↦ rw (e, handle_static) refl
      | inr (file, e) ↦ rw (e, handle_static) refl
    ]

handle_get-HasLength :
    (l : Libraries) (path : Bytes) (req : Request) (i : BlobIndex)
    → HasLength (handle_get l path req i)
handle_get-HasLength l path req i = elim (handle_get-cases l path req i) [
  | inl e ↦ rw e (stock_reply-HasLength not_found)
  | inr (b, file, _, _, e) ↦ rw e (blob_reply-HasLength l _ file)
]

handle_enumerate-HasLength :
    (l : Libraries) (path : Bytes) (i : BlobIndex) → HasLength (handle_enumerate l path i)
unfolding handle_enumerate
handle_enumerate-HasLength l path i = json_reply-HasLength l _

Route-HasLength :
    (l : Libraries) (config : Config) (path : Bytes) (req : Request) (i j : BlobIndex) (rep : Reply)
    → req.method ≡ bytes "GET"
    → Route l config path req i (done (rep, j))
    → HasLength rep
Route-HasLength l config path req i j rep m (static _ e) =
    rw (reply_of e) (handle_static-HasLength config path i)
Route-HasLength l config path req i j rep m (stat _ e) =
    rw (reply_of e ∙ handle_stat_answers l path req i) (json_reply-HasLength l _)
Route-HasLength l config path req i j rep m (enumerate _ _ e) =
    rw (reply_of e) (handle_enumerate-HasLength l path i)
Route-HasLength l config path req i j rep m (check h e) =
    absurd (methods_differ m h (unfold str_eq in refl))
Route-HasLength l config path req i j rep m (get _ e) =
    rw (reply_of e) (handle_get-HasLength l path req i)
Route-HasLength l config path req i j rep m (put (inl h) e) =
    absurd (methods_differ m h (unfold str_eq in refl))
Route-HasLength l config path req i j rep m (put (inr h) e) =
    absurd (methods_differ m h (unfold str_eq in refl))
Route-HasLength l config path req i j rep m (refuse e) =
    rw (reply_of e) (stock_reply-HasLength bad_request)

-- The answer to a GET has a Content-Length header, the first of that name in any case, from which
-- atoi reads the length of its content, if that is below 2 ^ 31.
pub handle_request-HasLength :
    (l : Libraries) (config : Config) (req : Request) (i j : BlobIndex) (rep : Reply)
    → req.method ≡ bytes "GET"
    → handle_request l config req i ≡ done (rep, j)
    → length rep.content < 2 ^ 31
    → HasLength rep × (atoi (get_header rep.headers (bytes "Content-Length")) ≡ length rep.content)
handle_request-HasLength l config req i j rep m e small =
    let has : HasLength rep = elim (handle_request-cases l config req i (rep, j) e) [
      | inl z ↦ rw (ap (λ (q : Reply × BlobIndex). q.0) z) (stock_reply-HasLength bad_request)
      | inr (path, d, good, route) ↦ Route-HasLength l config path req i j rep m route
    ] in
    (has, rw has (atoi-decimal (length rep.content) small))
