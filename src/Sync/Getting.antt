-- ===== src/Sync/Getting.antt =====
-- The loop of sync_host that gets, against a server of this program.
use camlispp.Prelude.{
  ℕ, zero, suc, ◌≤◌, ◌<◌, ◌≡◌, refl, sym, ap, ◌∙◌, subst, ◌⊎◌, inl, inr, Bool, true, List, [], ◌∷◌,
  ◌++◌, Option, some, map, arith, length, length-drop, take, drop, All, append_assoc, map-append,
  take-append-drop, take_all, List-cases, Elem,
}
use camlispp.StdString.{Bytes}
use camlispp.StdMap.{StdMap, IsSorted}
use camlispp.BlobKey.{BlobKey, blobref}
use camlispp.BlobKey.Order.{key_order}
use camlispp.Config.{Config}
use camlispp.Hash.{Crypto}
use camlispp.BlobIndex.{Outcome, aborted, done, BlobIndex, paginate, page_start}
use camlispp.BlobIndex.Pages.{IsPlain, paginate-take, page_start-split}
use camlispp.Qi.{Qi}
use camlispp.Http.Reply.{Reply}
use camlispp.Http.Grammars.{bytes_order}
use camlispp.Http.Grammars.Pairs.{IsValue}
use camlispp.Http.RequestHandler.{
  Json, Libraries, handle_enumerate, json_reply, enumeration_json, shown, continue_after,
}
use camlispp.Http.RequestHandler.Enumeration.{
  entry_ref, item_refs, continue_after_last, continue_after_more, shown-take, take-take, All-back,
}
use camlispp.Http.RequestHandler.Forms.{with_qi}
use camlispp.Sync.Enumeration.{SyncEnumeration, last, parse_sync_enumeration, ◌>>=◌}
use camlispp.Sync.Urls.{build_enumeration_url}
use camlispp.Sync.Host.{Call, fetch, State, fetch_missing, get_loop}
use camlispp.Sync.Reading.{enumeration_of-enumeration_json}
use camlispp.Sync.Asking.{IsAskable}
use camlispp.Sync.Sets.{page_refs}
use camlispp.Sync.Rounds.{fetch_missing-append, get_loop-step, next}
use camlispp.Sync.Fetching.{IsServed, Fetched, fetch_missing-Fetched}
use camlispp.Sync.Addresses.{enumeration_path, after_of, decode_query_string_after-enumeration_path}

-- A text that the loop starts an enumeration from: none, or one of the index.
abbrev pub IsStart : BlobIndex → Bytes → Type 0
IsStart remote from = (from ≡ []) ⊎ Elem from (page_refs remote.blobs)

pub after_of-ref : (e : BlobKey × ℕ) → after_of (entry_ref e) ≡ some (entry_ref e)
unfolding blobref
after_of-ref (k, p) = go k.hash_type k.hash_value
  where
    go : (t v : Bytes) → after_of (t ++ b'-' ∷ v) ≡ some (t ++ b'-' ∷ v)
    go [] v = refl
    go (c ∷ t) v = refl

pub Elem-IsValue :
    (x : Bytes) (m : List (BlobKey × ℕ)) → IsAskable m → Elem x (page_refs m) → IsValue x
Elem-IsValue x [] h e = absurd e
Elem-IsValue x (y ∷ m) h (inl q) = subst IsValue (sym q) h.0
Elem-IsValue x (y ∷ m) h (inr q) = Elem-IsValue x m h.1 q

pub Elem-middle :
    (front : List (BlobKey × ℕ)) (e : BlobKey × ℕ) (ys : List (BlobKey × ℕ))
    → Elem (entry_ref e) (page_refs (front ++ e ∷ ys))
Elem-middle [] e ys = inl refl
Elem-middle (x ∷ front) e ys = inr (Elem-middle front e ys)

-- The page that the other server answers with.
abbrev pub page_from : BlobIndex → Bytes → List (BlobKey × ℕ)
page_from remote from = paginate [] (after_of from) 26 remote

-- The other server's reply to the address, and what is read of it.
abbrev pub listing : Qi → Libraries → BlobIndex → Bytes → Bytes
listing qi l remote from = (handle_enumerate (with_qi qi l) (enumeration_path from) remote).content

listing-page_from :
    (qi : Qi) (l : Libraries) (remote : BlobIndex) (from : Bytes)
    → (from ≡ []) ⊎ IsValue from
    → handle_enumerate (with_qi qi l) (enumeration_path from) remote
      ≡ json_reply (with_qi qi l) (enumeration_json remote (page_from remote from))
unfolding handle_enumerate
listing-page_from qi l remote from h =
    ap
      (λ (after : Option Bytes).
        json_reply (with_qi qi l) (enumeration_json remote (paginate [] after 26 remote)))
      (decode_query_string_after-enumeration_path qi from h)

module _ {W : Type 0} (crypto : Crypto) (config : Config) (read_json : Bytes → Option Json)
    (perform : Call → W → Option Bytes × W) (host : Bytes) (qi : Qi) (l : Libraries)
    (remote : BlobIndex) (sorted : IsSorted remote.blobs) (plain : All IsPlain remote.blobs)
    (askable : IsAskable remote.blobs)
    (served : (w : W)
      → (from : Bytes) → IsStart remote from
      → perform (fetch (build_enumeration_url host from)) w ≡ (some (listing qi l remote from), w))
    (read : (from : Bytes)
      → IsStart remote from
      → read_json
          (json_reply (with_qi qi l) (enumeration_json remote (page_from remote from))).content
        ≡ some (enumeration_json remote (page_from remote from))) where
  abbrev fetch_all : List Bytes → State W → Outcome (State W)
  fetch_all refs s = fetch_missing crypto config read_json perform host refs s

  read_listing :
      (from : Bytes)
      → IsStart remote from
      → (e : SyncEnumeration) × (parse_sync_enumeration read_json (listing qi l remote from)
          ≡ done (some e))
        × (last e ≡ continue_after (page_from remote from))
        × (e.blob_refs ≡ item_refs (shown 0 remote (page_from remote from)))
  unfolding parse_sync_enumeration
  read_listing from h =
      let value : (from ≡ []) ⊎ IsValue from = elim h [
        | inl q ↦ inl q
        | inr q ↦ inr (Elem-IsValue from remote.blobs askable q)
      ] in
      let (e, k, m, n) = enumeration_of-enumeration_json remote (page_from remote from) in
      let text = ap (λ (r : Reply). r.content) (listing-page_from qi l remote from value) in
      (e, rw (ap read_json text ∙ read from h, parse_sync_enumeration) k, m, n)

  -- One round of the loop.
  round :
      (f : ℕ) (from : Bytes) (s : State W) (back : StdMap BlobKey ℕ)
      → IsStart remote from
      → page_start (after_of from) remote.blobs ≡ back
      → get_loop crypto config read_json perform (suc f) host from s ≡ (
          fetch_all (map entry_ref (take 25 back)) s
          >>= next crypto config read_json perform host f (continue_after (take 26 back)))
  round f from s back h p =
      let (e, k, m, n) = read_listing from h in
      let page : page_from remote from ≡ take 26 back =
        paginate-take (after_of from) 26 remote (omega arith) ∙ ap (take 26) p in
      let refs =
        n
        ∙ ap (λ (pg : List (BlobKey × ℕ)). item_refs (shown 0 remote pg)) page
        ∙ shown-take 25 0 remote (take 26 back) refl
        ∙ ap (map entry_ref) (take-take 25 back) in
      get_loop-step crypto config read_json perform host f from s (listing qi l remote from) e
        (served s.world from h) k
      ∙ ap
          (λ (rs : List Bytes).
            fetch_all rs s >>= next crypto config read_json perform host f (last e))
          refs
      ∙ ap
          (λ (o : Option Bytes).
            fetch_all (map entry_ref (take 25 back)) s
            >>= next crypto config read_json perform host f o)
          (m ∙ ap continue_after page)

  abbrev finish : State W → Outcome (Bool × State W)
  finish t = done (true, t)

  bind_assoc :
      {A B C : Type 0} (o : Outcome A) (f : A → Outcome B) (g : B → Outcome C)
      → ((o >>= f) >>= g) ≡ (o >>= λ a. f a >>= g)
  bind_assoc aborted f g = refl
  bind_assoc (done a) f g = refl

  bind_same :
      {A B : Type 0} (o : Outcome A) (f g : A → Outcome B)
      → ((a : A) → f a ≡ g a)
      → (o >>= f) ≡ (o >>= g)
  bind_same aborted f g h = refl
  bind_same (done a) f g h = h a

  get_loop_last :
      (f : ℕ) (from : Bytes) (s : State W) (back : StdMap BlobKey ℕ)
      → IsStart remote from
      → page_start (after_of from) remote.blobs ≡ back
      → length back ≤ 25
      → get_loop crypto config read_json perform (suc f) host from s
        ≡ (fetch_all (map entry_ref back) s >>= finish)
  get_loop_last f from s back h p small =
      round f from s back h p
      ∙ ap
          (λ (o : Option Bytes).
            fetch_all (map entry_ref (take 25 back)) s
            >>= next crypto config read_json perform host f o)
          (continue_after_last back small)
      ∙ ap (λ (b : List (BlobKey × ℕ)). fetch_all (map entry_ref b) s >>= finish)
          (take_all 25 back small)

  get_loop_more :
      (f : ℕ) (from : Bytes) (s : State W) (back : StdMap BlobKey ℕ) (e : BlobKey × ℕ)
      (ys : StdMap BlobKey ℕ)
      → IsStart remote from
      → page_start (after_of from) remote.blobs ≡ back
      → drop 25 back ≡ e ∷ ys
      → ((t : State W)
          → get_loop crypto config read_json perform f host (entry_ref e) t
            ≡ (fetch_all (map entry_ref (e ∷ ys)) t >>= finish))
      → get_loop crypto config read_json perform (suc f) host from s
        ≡ (fetch_all (map entry_ref back) s >>= finish)
  get_loop_more f from s back e ys h p d rest =
      let front = map entry_ref (take 25 back) in
      let whole : front ++ map entry_ref (e ∷ ys) ≡ map entry_ref back =
        sym (map-append entry_ref (take 25 back) (e ∷ ys))
        ∙ ap (map entry_ref) (ap (◌++◌ (take 25 back)) (sym d) ∙ take-append-drop 25 back) in
      round f from s back h p
      ∙ ap
          (λ (o : Option Bytes).
            fetch_all front s >>= next crypto config read_json perform host f o)
          (continue_after_more back e ys d)
      ∙ bind_same (fetch_all front s)
          (get_loop crypto config read_json perform f host (entry_ref e))
          (λ t. fetch_all (map entry_ref (e ∷ ys)) t >>= finish) rest
      ∙ sym (bind_assoc (fetch_all front s) (fetch_all (map entry_ref (e ∷ ys))) finish)
      ∙ ap (λ (o : Outcome (State W)). o >>= finish)
          (sym (
            fetch_missing-append crypto config read_json perform host front (map entry_ref (e ∷ ys))
              s))
      ∙ ap (λ (rs : List Bytes). fetch_all rs s >>= finish) whole

  get_loop_from :
      (f : ℕ) (from : Bytes) (front back : StdMap BlobKey ℕ) (s : State W)
      → remote.blobs ≡ front ++ back
      → IsStart remote from
      → page_start (after_of from) remote.blobs ≡ back
      → length back < f
      → get_loop crypto config read_json perform f host from s
        ≡ (fetch_all (map entry_ref back) s >>= finish)
  get_loop_from zero from front back s e h p less = absurd (omega arith)
  get_loop_from (suc f) from front back s e h p less = elim (List-cases (drop 25 back)) [
    | inl d ↦
        let len : length (drop 25 back) ≡ 0 = ap length d in
        get_loop_last f from s back h p (omega (arith, length-drop 25 back))
    | inr (x, ys, d) ↦
        let len : length (drop 25 back) ≡ suc (length ys) = ap length d in
        let ahead = front ++ take 25 back in
        let split : remote.blobs ≡ ahead ++ x ∷ ys =
          e
          ∙ ap (◌++◌ front) (sym (take-append-drop 25 back) ∙ ap (◌++◌ (take 25 back)) d)
          ∙ sym (append_assoc front (take 25 back) (x ∷ ys)) in
        let start : page_start (after_of (entry_ref x)) remote.blobs ≡ x ∷ ys =
          ap (λ (o : Option Bytes). page_start o remote.blobs) (after_of-ref x)
          ∙ ap (page_start (some (entry_ref x))) split
          ∙ page_start-split ahead x ys (subst (λ (m : StdMap BlobKey ℕ). IsSorted m) split sorted)
              (All-back IsPlain ahead x ys (subst (All IsPlain) split plain)) in
        let listed : IsStart remote (entry_ref x) = inr (
          subst (λ (m : StdMap BlobKey ℕ). Elem (entry_ref x) (page_refs m)) (sym split)
            (Elem-middle ahead x ys)) in
        get_loop_more f from s back x ys h p d (λ t.
          get_loop_from f (entry_ref x) ahead (x ∷ ys) t split listed start
            (omega (arith, length-drop 25 back)))
  ]

  -- Against a server of this program that stays as it is, the loop ends, and has gone through the text of every key of that index once, in the order of the keys, as if they were
  -- one list; one round for each entry and one more are enough. The other index must be in order, and
  -- its keys ones whose texts are read back and can stand in an address; the reply to an enumeration
  -- comes back, and its JSON is read back.
  get_loop-fetch_missing :
      (f : ℕ) (s : State W)
      → length remote.blobs < f
      → get_loop crypto config read_json perform f host [] s ≡ (
          fetch_missing crypto config read_json perform host (map entry_ref remote.blobs) s >>= λ t.
          done (true, t))
  get_loop-fetch_missing f s less =
      get_loop_from f [] [] remote.blobs s refl (inl refl) (unfold page_start in refl) less

  -- Against a server of this program the loop that gets ends, and then the text of every key of the
  -- other index leads to a blob here too, as does every text that led to one before; one round for
  -- each entry of the other index and one more are enough. Both indexes must be in order, the texts of
  -- the other's keys ones that are read back and can stand in an address; each reply comes back, and
  -- changes nothing; the JSON of an enumeration is read back, and the answer to the text of a key is
  -- a content of it that is not empty.
  pub get_loop-Fetched :
      (f : ℕ) (s : State W)
      → IsSorted s.index.blobs
      → All (IsServed crypto config read_json perform host) (page_refs remote.blobs)
      → length remote.blobs < f
      → (t : State W) × (get_loop crypto config read_json perform f host [] s ≡ done (true, t))
        × Fetched crypto config read_json perform host (page_refs remote.blobs) s t
  get_loop-Fetched f s here there less =
      let (t, e, r) =
        fetch_missing-Fetched crypto config read_json perform host (page_refs remote.blobs) s here
          there in
      (t, get_loop-fetch_missing f s less ∙ ap (λ (o : Outcome (State W)). o >>= finish) e, r)
