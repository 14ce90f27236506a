-- ===== src/Sync/Host.antt =====
-- sync_host and the thread's loop. The network is a parameter: what curl_easy_perform makes of a
-- call, with a state of its own, since the other servers change. `none` is a result that is not
-- CURLE_OK. A loop whose end rests on the other server has fuel, and says whether it ended.
use camlispp.Prelude.{
  ℕ, zero, suc, ◌+◌, Bool, true, false, ◌&&◌, List, [], ◌∷◌, ◌++◌, Option, none, some,
  if◌then◌else◌, ◌==◌, leb, length,
}
use camlispp.StdString.{Bytes, bytes, str_eq, str_lt}
use camlispp.BlobKey.{BlobKey, blobref}
use camlispp.Config.{Config, SyncConfig, sync_gets, sync_sends}
use camlispp.Hash.{Crypto}
use camlispp.BlobIndex.{Outcome, aborted, done, BlobIndex, add_blob, get, paginate}
use camlispp.Http.RequestHandler.{Json, lookup, back_ref}
use camlispp.Sync.Enumeration.{SyncEnumeration, last, parse_sync_enumeration, ◌>>=◌}
use camlispp.Sync.Urls.{build_stat_url, build_enumeration_url, build_blob_url, stat_request}

-- the calls: fetch_url with an address, with a body too, and the form of send_blob with the name
-- and the path of its one file
pub data Call : Type 0 where
  fetch : Bytes → Call
  post : Bytes → Bytes → Call
  upload : Bytes → Bytes → Bytes → Call

-- std::set<std::string>
unfoldable pub set_insert : Bytes → List Bytes → List Bytes
unfolding str_lt
set_insert s [] = s ∷ []
set_insert s (t ∷ ts) =
    let rest = set_insert s ts in
    if str_lt s t then s ∷ t ∷ ts else if str_lt t s then t ∷ rest else t ∷ ts

unfoldable pub set_erase : Bytes → List Bytes → List Bytes
unfolding str_eq
set_erase s [] = []
set_erase s (t ∷ ts) = let rest = set_erase s ts in if str_eq s t then ts else t ∷ rest

-- the texts of a page, as a set
unfoldable pub check_refs : List (BlobKey × ℕ) → List Bytes → List Bytes
unfolding set_insert blobref
check_refs [] refs = refs
check_refs ((k, p) ∷ blobs) refs = check_refs blobs (set_insert (blobref k) refs)

unfoldable pub erase_all : List Bytes → List Bytes → List Bytes
unfolding set_erase
erase_all [] refs = refs
erase_all (s ∷ ss) refs = erase_all ss (set_erase s refs)

pub record State (W : Type 0) : Type 0 where
  pub index : BlobIndex
  pub world : W

module _ {W : Type 0} (crypto : Crypto) (config : Config) (read_json : Bytes → Option Json)
    (perform : Call → W → Option Bytes × W) where
  abbrev pub call : Call → State W → Option Bytes × State W
  call c s = ((perform c s.world).0, record s { world = (perform c s.world).1 })

  abbrev pub kept : State W → Outcome (Option ℕ × BlobIndex) → Outcome (State W)
  kept s aborted = aborted
  kept s (done (r, i)) = done (record s { index = i })

  -- what fetch_blob does with the answer
  unfoldable pub store_fetched : Bytes → Option Bytes → State W → Outcome (State W)
  unfolding add_blob
  store_fetched blob_ref none s = done s
  store_fetched blob_ref (some content) s =
      kept s (add_blob crypto config (some blob_ref) content s.index)

  unfoldable pub fetch_blob : Bytes → Bytes → State W → Outcome (State W)
  unfolding store_fetched build_blob_url
  fetch_blob host blob_ref s =
      let (content, s') = call (fetch (build_blob_url host blob_ref)) s in
      store_fetched blob_ref content s'

  -- the loop over the texts that a server lists
  unfoldable pub fetch_missing : Bytes → List Bytes → State W → Outcome (State W)
  unfolding get fetch_blob
  fetch_missing host [] s = done s
  fetch_missing host (ref ∷ refs) s = elim (get ref s.index) [
    | some p ↦ fetch_missing host refs s
    | none ↦ fetch_blob host ref s >>= λ s'. fetch_missing host refs s'
  ]

  abbrev pub parse_answer : Option Bytes → Outcome (Option SyncEnumeration)
  parse_answer none = done none
  parse_answer (some content) = parse_sync_enumeration read_json content

  -- the loop that gets: true beside the state if it ended
  unfoldable pub get_loop : ℕ → Bytes → Bytes → State W → Outcome (Bool × State W)
  unfolding build_enumeration_url parse_sync_enumeration fetch_missing last
  get_loop zero host from s = done (false, s)
  get_loop (suc fuel) host from s =
      let (content, s') = call (fetch (build_enumeration_url host from)) s in
      parse_answer content >>= elim [
        | none ↦ done (true, s')
        | some e ↦ fetch_missing host e.blob_refs s' >>= λ t. elim (last e) [
          | none ↦ done (true, t)
          | some ref ↦ get_loop fuel host ref t
        ]
      ]

  -- send_blob, whose result is not used
  unfoldable pub send_blob : Bytes → Bytes → State W → State W
  unfolding lookup
  send_blob host blob_ref s = elim (lookup blob_ref s.index) [
    | none ↦ s
    | some b ↦ (call (upload (host ++ bytes "/upload") blob_ref b.file_path) s).1
  ]

  unfoldable pub send_all : Bytes → List Bytes → State W → State W
  unfolding send_blob
  send_all host [] s = s
  send_all host (ref ∷ refs) s = send_all host refs (send_blob host ref s)

  -- the question about a page and what is sent after it; false if the loop is to stop
  unfoldable pub send_page : Bytes → List (BlobKey × ℕ) → State W → Outcome (Bool × State W)
  unfolding stat_request build_stat_url parse_sync_enumeration check_refs erase_all send_all
  send_page host [] s = done (true, s)
  send_page host (e ∷ blobs) s =
      let page = e ∷ blobs in
      let (content, s') = call (post (build_stat_url host) (stat_request page)) s in
      parse_answer content >>= elim [
        | none ↦ done (false, s')
        | some found ↦
            done (true, send_all host (erase_all found.blob_refs (check_refs page [])) s')
      ]

  -- the loop that sends: true beside the state if it ended
  unfoldable pub send_loop : ℕ → Bytes → Option Bytes → State W → Outcome (Bool × State W)
  unfolding paginate back_ref send_page
  send_loop zero host after s = done (false, s)
  send_loop (suc fuel) host after s =
      let page = paginate [] after 501 s.index in
      let full = length page == 501 in
      send_page host page s >>= λ (more, t). elim (full && more) [
        | true ↦ send_loop fuel host (some (back_ref page)) t
        | false ↦ done (true, t)
      ]

  -- sync_host
  unfoldable pub sync_host : ℕ → SyncConfig → State W → Outcome (Bool × State W)
  unfolding get_loop send_loop sync_gets sync_sends
  sync_host fuel c s =
      (if sync_gets c then get_loop fuel c.host [] s else done (true, s)) >>= λ (got, t).
      (if sync_sends c then send_loop fuel c.host none t else done (true, t)) >>= λ (sent, u).
      done (got && sent, u)

  unfoldable pub sync_hosts : ℕ → List SyncConfig → State W → Outcome (Bool × State W)
  unfolding sync_host
  sync_hosts fuel [] s = done (true, s)
  sync_hosts fuel (c ∷ cs) s =
      sync_host fuel c s >>= λ (one, t). sync_hosts fuel cs t >>= λ (all, u). done (one && all, u)

  -- one round of Sync::run that finds no request to stop: the tick after it, and the state
  unfoldable pub run_round : ℕ → ℕ → State W → Outcome (ℕ × State W)
  unfolding sync_hosts
  run_round fuel tick s =
      if leb config.sync_delay (tick + 1)
      then (sync_hosts fuel config.sync_servers s >>= λ (ended, t). done (0, t))
      else done (tick + 1, s)
