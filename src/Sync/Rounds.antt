-- ===== src/Sync/Rounds.antt =====
-- One round of the loop that gets, and texts that are gone through piece by piece.
use camlispp.Prelude.{
  ℕ, suc, ◌≡◌, refl, ap, ◌∙◌, inl, inr, Bool, true, List, [], ◌∷◌, ◌++◌, Option, none, some,
  Option-cases,
}
use camlispp.StdString.{Bytes}
use camlispp.BlobKey.Order.{key_order}
use camlispp.Config.{Config}
use camlispp.Hash.{Crypto}
use camlispp.BlobIndex.{Outcome, aborted, done, get}
use camlispp.Http.Grammars.{bytes_order}
use camlispp.Http.RequestHandler.{Json}
use camlispp.Sync.Enumeration.{SyncEnumeration, last, parse_sync_enumeration, ◌>>=◌}
use camlispp.Sync.Urls.{build_enumeration_url}
use camlispp.Sync.Host.{Call, fetch, State, parse_answer, fetch_missing, fetch_blob, get_loop}

module _ {W : Type 0} (crypto : Crypto) (config : Config) (read_json : Bytes → Option Json)
    (perform : Call → W → Option Bytes × W) (host : Bytes) where
  fetch_missing-bind :
      (refs more : List Bytes) (o : Outcome (State W))
      → ((s : State W)
          → fetch_missing crypto config read_json perform host (refs ++ more) s ≡ (
              fetch_missing crypto config read_json perform host refs s >>= λ t.
              fetch_missing crypto config read_json perform host more t))
      → (o >>= λ s. fetch_missing crypto config read_json perform host (refs ++ more) s) ≡ (
          (o >>= λ s. fetch_missing crypto config read_json perform host refs s) >>= λ t.
          fetch_missing crypto config read_json perform host more t)
  fetch_missing-bind refs more aborted h = refl
  fetch_missing-bind refs more (done s) h = h s

  -- Texts are gone through piece by piece.
  pub fetch_missing-append :
      (refs more : List Bytes) (s : State W)
      → fetch_missing crypto config read_json perform host (refs ++ more) s ≡ (
          fetch_missing crypto config read_json perform host refs s >>= λ t.
          fetch_missing crypto config read_json perform host more t)
  unfolding fetch_missing
  fetch_missing-append [] more s = refl
  fetch_missing-append (ref ∷ refs) more s = elim (Option-cases (get ref s.index)) [
    | inl e ↦
        rw (e, fetch_missing)
          (fetch_missing-bind refs more (fetch_blob crypto config read_json perform host ref s)
            (fetch_missing-append refs more))
    | inr (p, e) ↦ rw (e, fetch_missing) (fetch_missing-append refs more s)
  ]

  abbrev pub next : ℕ → Option Bytes → State W → Outcome (Bool × State W)
  next f none t = done (true, t)
  next f (some ref) t = get_loop crypto config read_json perform f host ref t

  abbrev after_answer : ℕ → State W → Outcome (Option SyncEnumeration) → Outcome (Bool × State W)
  after_answer f s o = o >>= elim [
    | none ↦ done (true, s)
    | some e ↦ fetch_missing crypto config read_json perform host e.blob_refs s >>= λ t.
        elim (last e) [
          | none ↦ done (true, t)
          | some ref ↦ get_loop crypto config read_json perform f host ref t
        ]
  ]

  pub get_loop-step :
      (f : ℕ) (from : Bytes) (s : State W) (content : Bytes) (e : SyncEnumeration)
      → perform (fetch (build_enumeration_url host from)) s.world ≡ (some content, s.world)
      → parse_sync_enumeration read_json content ≡ done (some e)
      → get_loop crypto config read_json perform (suc f) host from s
        ≡ (fetch_missing crypto config read_json perform host e.blob_refs s >>= next f (last e))
  unfolding get_loop
  get_loop-step f from s content e h k =
      ap
        (λ (r : Option Bytes × W).
          after_answer f (record s { world = r.1 })
            (parse_answer crypto config read_json perform r.0))
        h
      ∙ ap (after_answer f s) k
      ∙ after_fetch f (last e) (fetch_missing crypto config read_json perform host e.blob_refs s)
    where
      after_fetch :
          (f : ℕ) (o : Option Bytes) (t : Outcome (State W))
          → (t >>= λ u. elim o [
            | none ↦ done (true, u)
            | some ref ↦ get_loop crypto config read_json perform f host ref u
          ])
            ≡ (t >>= next f o)
      after_fetch f none aborted = refl
      after_fetch f (some ref) aborted = refl
      after_fetch f none (done u) = refl
      after_fetch f (some ref) (done u) = refl
