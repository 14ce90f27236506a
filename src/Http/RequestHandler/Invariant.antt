-- ===== src/Http/RequestHandler/Invariant.antt =====
-- Requests keep the invariant of the index.
use camlispp.Prelude.{ℕ, ◌≡◌, refl, ap, inl, inr, List, [], ◌∷◌, Option, none, if-P}
use camlispp.StdString.{Bytes, bytes, str_eq}
use camlispp.Config.{Config}
use camlispp.BlobIndex.{Outcome, aborted, done, BlobIndex, add_blob}
use camlispp.BlobIndex.Invariant.{IsSound, add_blob-IsSound}
use camlispp.Http.Request.{Request}
use camlispp.Http.Reply.{Reply}
use camlispp.Http.Multipart.{Part}
use camlispp.Http.RequestHandler.Defs.{Libraries, get_header}
use camlispp.Http.RequestHandler.Dispatch.{
  index_of, put_answer, add_payload, add_parts, posted_parts, handle_put, handle_request,
}
use camlispp.Http.RequestHandler.Routes.{
  Route, static, stat, enumerate, check, get, put, refuse, handle_request-cases,
  handle_request-Returns,
}

-- Requests keep what add_blob keeps.
module _ (l : Libraries) (config : Config) (P : BlobIndex → Type 0)
    (keeps : (content : Bytes)
      → (i j : BlobIndex) → (r : Option ℕ) → P i
      → add_blob l.crypto config none content i ≡ done (r, j)
      → P j) where
  -- An outcome whose index, if there is one, has the property.
  abbrev Leaves : Outcome BlobIndex → Type 0
  Leaves aborted = Unit
  Leaves (done i) = P i

  abbrev Answers : Outcome (Reply × BlobIndex) → Type 0
  Answers aborted = Unit
  Answers (done (rep, i)) = P i

  put_answer-Answers : (o : Outcome BlobIndex) → Leaves o → Answers (put_answer o)
  put_answer-Answers aborted h = tt
  put_answer-Answers (done i) h = h

  index_of-Leaves :
      (o : Outcome (Option ℕ × BlobIndex))
      → ((r : Option ℕ) → (j : BlobIndex) → o ≡ done (r, j) → P j)
      → Leaves (index_of o)
  index_of-Leaves aborted h = tt
  index_of-Leaves (done (r, j)) h = h r j refl

  add_payload-Leaves :
      (payload : Bytes) (i : BlobIndex) → P i → Leaves (add_payload l config payload i)
  unfolding add_payload
  add_payload-Leaves [] i s = s
  add_payload-Leaves (c ∷ cs) i s =
      index_of-Leaves (add_blob l.crypto config none (c ∷ cs) i) λ r j e. keeps (c ∷ cs) i j r s e

  abbrev then_parts : List Part → Outcome BlobIndex → Outcome BlobIndex
  then_parts parts o = elim o [ aborted ↦ aborted | done j ↦ add_parts l config parts j ]

  then_parts-Leaves :
      (parts : List Part) (o : Outcome BlobIndex)
      → Leaves o
      → ((j : BlobIndex) → P j → Leaves (add_parts l config parts j))
      → Leaves (then_parts parts o)
  then_parts-Leaves parts aborted h next = tt
  then_parts-Leaves parts (done j) h next = next j h

  add_parts-Leaves : (parts : List Part) (i : BlobIndex) → P i → Leaves (add_parts l config parts i)
  unfolding add_parts
  add_parts-Leaves [] i s = s
  add_parts-Leaves (part ∷ parts) i s =
      then_parts-Leaves parts (add_payload l config part.payload i)
        (add_payload-Leaves part.payload i s) (add_parts-Leaves parts)

  handle_put-Answers : (req : Request) (i : BlobIndex) → P i → Answers (handle_put l config req i)
  unfolding handle_put
  handle_put-Answers req i s =
      let content_type = get_header req.headers (bytes "Content-Type") in
      let parts = posted_parts l config content_type req.content in
      if-P Answers (str_eq content_type []) _ _ (λ _. s)
        λ _. put_answer-Answers (add_parts l config parts i) (add_parts-Leaves parts i s)

  Route-Answers :
      (path : Bytes) (req : Request) (i : BlobIndex) (o : Outcome (Reply × BlobIndex))
      → P i
      → Route l config path req i o
      → Answers o
  Route-Answers path req i o s (static _ e) = rw e s
  Route-Answers path req i o s (stat _ e) = rw e s
  Route-Answers path req i o s (enumerate _ _ e) = rw e s
  Route-Answers path req i o s (check _ e) = rw e s
  Route-Answers path req i o s (get _ e) = rw e s
  Route-Answers path req i o s (put _ e) = rw e (handle_put-Answers req i s)
  Route-Answers path req i o s (refuse e) = rw e s

  pub handle_request-keeps :
      (req : Request) (i j : BlobIndex) (rep : Reply)
      → P i
      → handle_request l config req i ≡ done (rep, j)
      → P j
  handle_request-keeps req i j rep s e = elim (handle_request-cases l config req i (rep, j) e) [
    | inl z ↦ rw (ap (λ (q : Reply × BlobIndex). q.1) z) s
    | inr (path, _, _, route) ↦ Route-Answers path req i (done (rep, j)) s route
  ]

-- Every request keeps the invariant of the index: the map is in order, the text of every key is
-- read back, and every address is one of the heap.
pub handle_request-IsSound :
    (l : Libraries) (config : Config) (req : Request) (i j : BlobIndex) (rep : Reply)
    → IsSound i
    → handle_request l config req i ≡ done (rep, j)
    → IsSound j
handle_request-IsSound l config =
    handle_request-keeps l config IsSound (λ c i j r. add_blob-IsSound l.crypto config none c i j r)

-- requests, one after the other
abbrev pub serve : Libraries → Config → List Request → BlobIndex → Outcome BlobIndex
serve l config [] i = done i
serve l config (req ∷ reqs) i = elim (handle_request l config req i) [
  | aborted ↦ aborted
  | done (rep, j) ↦ serve l config reqs j
]

module _ (l : Libraries) (config : Config) (P : BlobIndex → Type 0)
    (keeps : (content : Bytes)
      → (i j : BlobIndex) → (r : Option ℕ) → P i
      → add_blob l.crypto config none content i ≡ done (r, j)
      → P j) where
  -- Any requests are answered, and keep it.
  pub serve-keeps :
      (reqs : List Request) (i : BlobIndex)
      → P i
      → (j : BlobIndex) × (serve l config reqs i ≡ done j) × P j
  serve-keeps [] i s = (i, refl, s)
  serve-keeps (req ∷ reqs) i s =
      let ((rep, j), e) = handle_request-Returns l config req i in
      let (k, f, t) = serve-keeps reqs j (handle_request-keeps l config P keeps req i j rep s e) in
      (k, rw (e, serve) f, t)
