-- ===== src/Sync/Sending.antt =====
-- The loop of sync_host that sends.
use camlispp.Prelude.{
  ℕ, zero, suc, ◌*◌, ◌<◌, ◌≤◌, ◌≡◌, refl, sym, ap, ◌∙◌, subst, ◌⊎◌, inl, inr, Bool, true, false,
  ◌&&◌, List, [], ◌∷◌, ◌++◌, Option, none, some, arith, ◌==◌, length, take, drop, All, append_assoc,
  take-append-drop, length-drop, List-cases, Option-cases, take_all,
}
use camlispp.StdString.{Bytes}
use camlispp.StdMap.{StdMap, IsSorted}
use camlispp.BlobKey.{BlobKey, blobref}
use camlispp.BlobKey.Order.{key_order}
use camlispp.Config.{Config}
use camlispp.Hash.{Crypto}
use camlispp.BlobIndex.{Outcome, aborted, done, BlobIndex, page_start}
use camlispp.BlobIndex.Pages.{IsPlain, paginate-take, page_start-split}
use camlispp.Http.RequestHandler.{Json, lookup, back_ref}
use camlispp.Http.RequestHandler.Enumeration.{take-suc, back_ref-snoc, All-back}
use camlispp.Sync.Enumeration.{SyncEnumeration, ◌>>=◌}
use camlispp.Sync.Urls.{stat_request, build_stat_url}
use camlispp.Sync.Host.{
  Call, post, State, call, parse_answer, check_refs, erase_all, send_blob, send_all, send_page,
  send_loop,
}

module _ {W : Type 0} (crypto : Crypto) (config : Config) (read_json : Bytes → Option Json)
    (perform : Call → W → Option Bytes × W) (host : Bytes) where
  -- A result that leaves the index as it was.
  abbrev Keeps : BlobIndex → Outcome (Bool × State W) → Type 0
  Keeps i aborted = Unit
  Keeps i (done (more, t)) = t.index ≡ i

  send_blob-index :
      (ref : Bytes) (s : State W)
      → (send_blob crypto config read_json perform host ref s).index ≡ s.index
  unfolding send_blob
  send_blob-index ref s = elim (Option-cases (lookup ref s.index)) [
    | inl e ↦ rw (e, send_blob) refl
    | inr (b, e) ↦ rw (e, send_blob) refl
  ]

  send_all-index :
      (refs : List Bytes) (s : State W)
      → (send_all crypto config read_json perform host refs s).index ≡ s.index
  unfolding send_all
  send_all-index [] s = refl
  send_all-index (ref ∷ refs) s =
      send_all-index refs (send_blob crypto config read_json perform host ref s)
      ∙ send_blob-index ref s

  after_stat-Keeps :
      (page : List (BlobKey × ℕ)) (s : State W) (o : Outcome (Option SyncEnumeration))
      → Keeps s.index (
          o >>= elim [
            | none ↦ done (false, s)
            | some found ↦ done (
              true,
              send_all crypto config read_json perform host
                  (erase_all found.blob_refs (check_refs page []))
                  s,
            )
          ])
  after_stat-Keeps page s aborted = tt
  after_stat-Keeps page s (done none) = refl
  after_stat-Keeps page s (done (some found)) = send_all-index _ s

  send_page-Keeps :
      (page : List (BlobKey × ℕ)) (s : State W)
      → Keeps s.index (send_page crypto config read_json perform host page s)
  unfolding send_page
  send_page-Keeps [] s = refl
  send_page-Keeps (e ∷ page) s =
      let (content, s') =
        call crypto config read_json perform (post (build_stat_url host) (stat_request (e ∷ page)))
          s in
      after_stat-Keeps (e ∷ page) s' (parse_answer crypto config read_json perform content)

  -- The loop ended, or a malformed answer ended the process; the index is as it was.
  abbrev IsEnded : BlobIndex → Outcome (Bool × State W) → Type 0
  IsEnded i o = (o ≡ aborted) ⊎ ((t : State W) × (o ≡ done (true, t)) × (t.index ≡ i))

  abbrev turn : ℕ → Bool → Bytes → Outcome (Bool × State W) → Outcome (Bool × State W)
  turn fuel full ref o = o >>= λ (more, t). elim (full && more) [
    | true ↦ send_loop crypto config read_json perform fuel host (some ref) t
    | false ↦ done (true, t)
  ]

  turn-IsEnded :
      (fuel : ℕ) (full : Bool) (ref : Bytes) (i : BlobIndex) (o : Outcome (Bool × State W))
      → Keeps i o
      → (full ≡ true
          → (t : State W) → t.index ≡ i
          → IsEnded i (send_loop crypto config read_json perform fuel host (some ref) t))
      → IsEnded i (turn fuel full ref o)
  turn-IsEnded fuel full ref i aborted k next = inl refl
  turn-IsEnded fuel false ref i (done (more, t)) k next = inr (t, refl, k)
  turn-IsEnded fuel true ref i (done (false, t)) k next = inr (t, refl, k)
  turn-IsEnded fuel true ref i (done (true, t)) k next = next refl t k

  send_loop-turn :
      (fuel : ℕ) (after : Option Bytes) (s : State W) (back : StdMap BlobKey ℕ)
      → page_start after s.index.blobs ≡ back
      → send_loop crypto config read_json perform (suc fuel) host after s
        ≡ turn fuel
            (length (take 501 back) == 501)
            (back_ref (take 501 back))
            (send_page crypto config read_json perform host (take 501 back) s)
  unfolding send_loop
  send_loop-turn fuel after s back h =
      ap
        (λ (page : List (BlobKey × ℕ)).
          turn fuel (length page == 501) (back_ref page)
            (send_page crypto config read_json perform host page s))
        (paginate-take after 501 s.index (omega arith) ∙ ap (take 501) h)

  last_of_page :
      (back : StdMap BlobKey ℕ) (e : BlobKey × ℕ) (ys : StdMap BlobKey ℕ)
      → drop 500 back ≡ e ∷ ys
      → back_ref (take 501 back) ≡ blobref e.0
  last_of_page back e ys d = rw (take-suc 500 back e ys d) (back_ref-snoc (take 500 back) e)

  not_full : (back : StdMap BlobKey ℕ) → length back ≤ 500 → (length (take 501 back) == 501) ≡ false
  not_full back h = rw (take_all 501 back (omega arith)) (ground arith)

  module _ (i : BlobIndex) (sorted : IsSorted i.blobs) (plain : All IsPlain i.blobs) where
    -- What the next round has before it, when the page is full.
    next_page :
        (front back : StdMap BlobKey ℕ) (e : BlobKey × ℕ) (ys : StdMap BlobKey ℕ)
        → i.blobs ≡ front ++ back
        → drop 500 back ≡ e ∷ ys
        → (i.blobs ≡ (front ++ take 500 back) ++ e ∷ ys)
          × (page_start (some (blobref e.0)) i.blobs ≡ e ∷ ys)
    next_page front back e ys h d =
        let ahead = front ++ take 500 back in
        let split : i.blobs ≡ ahead ++ e ∷ ys =
          h
          ∙ ap (◌++◌ front) (sym (take-append-drop 500 back) ∙ ap (◌++◌ (take 500 back)) d)
          ∙ sym (append_assoc front (take 500 back) (e ∷ ys)) in
        let p = All-back IsPlain ahead e ys (subst (All IsPlain) split plain) in
        let s = subst (λ (m : StdMap BlobKey ℕ). IsSorted m) split sorted in
        (split, ap (page_start (some (blobref e.0))) split ∙ page_start-split ahead e ys s p)

    send_loop-IsEnded :
        (fuel : ℕ) (after : Option Bytes) (front back : StdMap BlobKey ℕ) (s : State W)
        → s.index ≡ i
        → i.blobs ≡ front ++ back
        → page_start after i.blobs ≡ back
        → length back < 500 * fuel
        → IsEnded i (send_loop crypto config read_json perform fuel host after s)
    send_loop-IsEnded zero after front back s same h b l = absurd (omega arith)
    send_loop-IsEnded (suc fuel) after front back s same h b l =
        let page = send_page crypto config read_json perform host (take 501 back) s in
        let keeps : Keeps i page =
          subst (λ (j : BlobIndex). Keeps j page) same (send_page-Keeps (take 501 back) s) in
        let start = ap (λ (j : BlobIndex). page_start after j.blobs) same ∙ b in
        rw (send_loop-turn fuel after s back start) (elim (List-cases (drop 500 back)) [
          | inl d ↦
              let len : length (drop 500 back) ≡ 0 = ap length d in
              let short = not_full back (omega (arith, length-drop 500 back)) in
              turn-IsEnded fuel _ _ i page keeps (λ full. absurd (cc (short, full)))
          | inr (e, ys, d) ↦
              let len : length (drop 500 back) ≡ suc (length ys) = ap length d in
              let (split, behind) = next_page front back e ys h d in
              turn-IsEnded fuel _ _ i page keeps (λ full t u. rw (last_of_page back e ys d) (
                send_loop-IsEnded fuel (some (blobref e.0)) (front ++ take 500 back) (e ∷ ys) t u
                  split behind (omega (arith, length-drop 500 back))))
        ])

-- The loop that sends to a host ends after at most one round for each 500 entries and one more,
-- with the index as it was, unless an answer ends the process. The map must be in order, and every
-- key one whose text is read back.
pub send_loop_ends :
    {W : Type 0} (crypto : Crypto) (config : Config) (read_json : Bytes → Option Json)
    (perform : Call → W → Option Bytes × W) (host : Bytes) (fuel : ℕ) (s : State W)
    → IsSorted s.index.blobs
    → All IsPlain s.index.blobs
    → length s.index.blobs < 500 * fuel
    → (send_loop crypto config read_json perform fuel host none s ≡ aborted)
      ⊎ ((t : State W) × (send_loop crypto config read_json perform fuel host none s
            ≡ done (true, t))
          × (t.index ≡ s.index))
send_loop_ends crypto config read_json perform host fuel s sorted plain l =
    send_loop-IsEnded crypto config read_json perform host s.index sorted plain fuel none []
      s.index.blobs s refl refl (unfold page_start in refl) l
