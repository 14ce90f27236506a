-- ===== src/Sync/Exchange.antt =====
-- A page against a server of this program: what it does not have is uploaded, and nothing else.
use camlispp.Prelude.{
  ℕ, ◌≡◌, ◌≢◌, refl, sym, ap, ◌∙◌, subst, ◌↔◌, inl, inr, Bool, true, false, List, [], ◌∷◌, Option,
  none, some, Elem, Option-cases, map, All,
}
use camlispp.StdString.{Bytes, bytes, str_eq, starts_with}
use camlispp.BlobKey.{BlobKey}
use camlispp.Config.{Config}
use camlispp.Hash.{Crypto}
use camlispp.BlobIndex.{Outcome, done, BlobIndex, get}
use camlispp.Qi.{Qi}
use camlispp.Http.Request.{Request}
use camlispp.Http.Reply.{Reply}
use camlispp.Http.UrlDecode.{url_decode}
use camlispp.Http.Grammars.{qi_grammars}
use camlispp.Http.RequestHandler.{
  Json, Libraries, handle_request, handle_stat, dispatch, path_is_bad, answer, json_reply,
  stat_json, stat_refs, decode_query_string_blobs,
}
use camlispp.Http.RequestHandler.Routes.{handle_request_decoded, handle_stat_answers}
use camlispp.Http.RequestHandler.Forms.{with_qi}
use camlispp.Sync.Enumeration.{SyncEnumeration, parse_sync_enumeration, enumeration_of, ◌>>=◌}
use camlispp.Sync.Urls.{stat_request, build_stat_url}
use camlispp.Sync.Host.{Call, post, State, parse_answer, check_refs, erase_all, send_all, send_page}
use camlispp.Sync.Reading.{known_refs, enumeration_of-stat_json}
use camlispp.Sync.Sets.{page_refs, IsOrdered, erase_all-Elem, erase_all-IsOrdered, check_refs-Elem}
use camlispp.Sync.Uploading.{
  HasFile, file_name, uploaded, Elem-All, page_refs-HasFile, send_all-uploaded,
}
use camlispp.BlobIndex.Invariant.{IsSound}
use camlispp.Sync.Asking.{IsAskable, decode_query_string_blobs-stat_request}

some-ne-none : (p : ℕ) → some p ≢ none
some-ne-none p e = cc

-- The texts that lead to a blob are those asked about that the index knows.
known_refs-Elem :
    (x : Bytes) (i : BlobIndex) (refs : List Bytes)
    → Elem x (known_refs i refs) ↔ (Elem x refs × (get x i ≢ none))
known_refs-Elem x i [] = (λ e. absurd e, λ e. e.0)
known_refs-Elem x i (ref ∷ refs) =
    let ih = known_refs-Elem x i refs in
    elim (Option-cases (get ref i)) [
      | inl absent ↦
          rw (absent, known_refs)
            (
              λ e. let (a, n) = ih.0 e in (inr a, n),
              λ (e, n). elim e [
                | inl q ↦ absurd (n (ap (λ (t : Bytes). get t i) q ∙ absent))
                | inr q ↦ ih.1 (q, n)
              ],
            )
      | inr (p, found) ↦
          rw (found, known_refs)
            (
              elim [
                | inl q ↦ (
                  inl q,
                  λ n. some-ne-none p (sym found ∙ ap (λ (t : Bytes). get t i) (sym q) ∙ n),
                )
                | inr q ↦ let (a, n) = ih.0 q in (inr a, n)
              ],
              λ (e, n). elim e [ inl q ↦ inl q | inr q ↦ inr (ih.1 (q, n)) ],
            )
    ]

-- A POST of the question about a page to /stat.
pub record IsQuestion (page : List (BlobKey × ℕ)) (req : Request) : Type 0 where
  pub method_fits : req.method ≡ bytes "POST"
  pub decoded : url_decode req.uri ≡ some (bytes "/stat")
  pub written : req.content ≡ stat_request page

module _ (qi : Qi) (l : Libraries) (config : Config) (req : Request) (remote : BlobIndex) where
  dispatch_stat :
      req.method ≡ bytes "POST"
      → dispatch (with_qi qi l) config (bytes "/stat") req remote
        ≡ done (handle_stat (with_qi qi l) (bytes "/stat") req remote, remote)
  unfolding dispatch starts_with str_eq
  dispatch_stat m = rw m refl

  stat_refs_posted :
      (page : List (BlobKey × ℕ))
      → IsQuestion page req
      → stat_refs (with_qi qi l) (bytes "/stat") req
        ≡ decode_query_string_blobs (qi_grammars qi) (stat_request page)
  unfolding stat_refs str_eq
  stat_refs_posted page q = rw (q.method_fits, q.written) refl

  abbrev pub remote_reply : List (BlobKey × ℕ) → Reply
  remote_reply page =
      json_reply (with_qi qi l)
        (stat_json remote (decode_query_string_blobs (qi_grammars qi) (stat_request page)))

  handle_request-question :
      (page : List (BlobKey × ℕ))
      → IsQuestion page req
      → handle_request (with_qi qi l) config req remote ≡ done (remote_reply page, remote)
  unfolding path_is_bad
  handle_request-question page q =
      handle_request_decoded (with_qi qi l) config req remote (bytes "/stat") q.decoded
      ∙ dispatch_stat q.method_fits
      ∙ ap (λ (r : Reply). answer r remote)
          (handle_stat_answers (with_qi qi l) (bytes "/stat") req remote
            ∙ ap (λ (refs : List Bytes). json_reply (with_qi qi l) (stat_json remote refs))
                (stat_refs_posted page q))

module _ {W : Type 0} (crypto : Crypto) (config : Config) (read_json : Bytes → Option Json)
    (perform : Call → W → Option Bytes × W) (host : Bytes) where
  abbrev answered :
      List (BlobKey × ℕ) → State W → W → Outcome (Option SyncEnumeration) → Outcome (Bool × State W)
  answered page s w o = o >>= elim [
    | none ↦ done (false, record s { world = w })
    | some found ↦ done (
      true,
      send_all crypto config read_json perform host (erase_all found.blob_refs (check_refs page []))
          (record s { world = w }),
    )
  ]

  send_page-answered :
      (e : BlobKey × ℕ) (blobs : List (BlobKey × ℕ)) (s : State W) (content : Option Bytes) (w : W)
      → perform (post (build_stat_url host) (stat_request (e ∷ blobs))) s.world ≡ (content, w)
      → send_page crypto config read_json perform host (e ∷ blobs) s
        ≡ answered (e ∷ blobs) s w (parse_answer crypto config read_json perform content)
  unfolding send_page
  send_page-answered e blobs s content w h =
      ap
        (λ (r : Option Bytes × W).
          answered (e ∷ blobs) s r.1 (parse_answer crypto config read_json perform r.0))
        h

  parse_answer-some :
      (content : Bytes) (v : Json) (e : SyncEnumeration)
      → read_json content ≡ some v
      → enumeration_of v ≡ done (some e)
      → parse_answer crypto config read_json perform (some content) ≡ done (some e)
  unfolding parse_sync_enumeration
  parse_answer-some content v e h k = rw (h, parse_sync_enumeration) k

  -- What is sent for a page, if the answer lists what the other index knows of the texts asked about.
  sent-Elem :
      (x : Bytes) (page : List (BlobKey × ℕ)) (asked : List Bytes) (remote : BlobIndex)
      → Elem x asked ↔ Elem x (page_refs page)
      → Elem x (erase_all (known_refs remote asked) (check_refs page []))
        ↔ (Elem x (page_refs page) × (get x remote ≡ none))
  sent-Elem x page asked remote same =
      let (order, set) = check_refs-Elem x page in
      let erased = erase_all-Elem x (known_refs remote asked) (check_refs page []) order in
      let known = known_refs-Elem x remote asked in
      (
        λ e.
            let (a, n) = erased.0 e in
            (
              set.0 a,
              elim (Option-cases (get x remote)) [
                | inl absent ↦ absent
                | inr (p, found) ↦
                    absurd (n (known.1 (same.1 (set.0 a), λ q. some-ne-none p (sym found ∙ q))))
              ],
            ),
        λ (a, absent). erased.1 (set.1 a, λ k. (known.0 k).1 absent),
      )

  -- A page of the local index is sent to a server of this program: the thread asks it about the page,
  -- and then makes an upload for each text of the page that leads to no blob there, from the file of
  -- its blob here, each once, and no other call. The local index is sound, the page is not empty,
  -- its texts have the characters that the grammar takes for a value, the question reaches the
  -- other server as a request, its reply comes back, and the JSON of that reply is read back.
  pub send_page-exchange :
      (qi : Qi) (l : Libraries) (there : Config) (remote : BlobIndex) (req : Request)
      (e : BlobKey × ℕ) (blobs : List (BlobKey × ℕ)) (s : State W) (w : W)
      → IsSound s.index
      → All (λ x. Elem x s.index.blobs) (e ∷ blobs)
      → IsAskable (e ∷ blobs)
      → IsQuestion (e ∷ blobs) req
      → ((rep : Reply)
          → (after : BlobIndex) → handle_request (with_qi qi l) there req remote ≡ done (rep, after)
          → perform (post (build_stat_url host) (stat_request (e ∷ blobs))) s.world
            ≡ (some rep.content, w))
      → read_json (remote_reply qi l there req remote (e ∷ blobs)).content
        ≡ some (
            stat_json remote
              (decode_query_string_blobs (qi_grammars qi) (stat_request (e ∷ blobs))))
      → (files : List (Bytes × Bytes)) × (send_page crypto config read_json perform host
            (e ∷ blobs)
            s
          ≡ done (true, record s { world = uploaded perform host files w }))
        × ((x : Bytes)
            → Elem x (map file_name files)
              ↔ (Elem x (page_refs (e ∷ blobs)) × (get x remote ≡ none)))
        × IsOrdered (map file_name files)
        × All (HasFile s.index) files
  send_page-exchange qi l there remote req e blobs s w sound local askable q served written =
      let page = e ∷ blobs in
      let asked = decode_query_string_blobs (qi_grammars qi) (stat_request page) in
      let rep = remote_reply qi l there req remote page in
      let reached = served rep remote (handle_request-question qi l there req remote page q) in
      let (found, read, more, refs) = enumeration_of-stat_json remote asked in
      let parsed = parse_answer-some rep.content (stat_json remote asked) found written read in
      let sent = erase_all (known_refs remote asked) (check_refs page []) in
      let same : erase_all found.blob_refs (check_refs page []) ≡ sent =
        ap (λ (rs : List Bytes). erase_all rs (check_refs page [])) refs in
      let which : (x : Bytes) → Elem x sent ↔ (Elem x (page_refs page) × (get x remote ≡ none)) =
        λ x.
          sent-Elem x page asked remote
            (decode_query_string_blobs-stat_request qi page askable x) in
      let (files, names, all, sends) =
        send_all-uploaded crypto config read_json perform host sent (record s { world = w })
          (Elem-All (λ ref. (path : Bytes) × HasFile s.index (ref, path)) sent
            (λ x h. page_refs-HasFile s.index page x sound local ((which x).0 h).0)) in
      (
        files,
        send_page-answered e blobs s (some rep.content) w reached
            ∙ ap (answered page s w) parsed
            ∙ ap
                (λ (rs : List Bytes).
                  done (
                    true,
                    send_all crypto config read_json perform host rs (record s { world = w }),
                  ))
                same
            ∙ ap (λ (t : State W). done (true, t)) sends,
        λ x.
            subst
              (λ (ts : List Bytes). Elem x ts ↔ (Elem x (page_refs page) × (get x remote ≡ none)))
              (sym names) (which x),
        subst IsOrdered (sym names) (
            erase_all-IsOrdered (known_refs remote asked) (check_refs page [])
              (check_refs-Elem [] page).0),
        all,
      )
