-- ===== src/Server/Runs.antt =====
-- Whatever happens on the connections, the server answers, and its index stays sound.
use camlispp.Prelude.{
  ℕ, zero, suc, ◌≤◌, ◌<◌, ◌≡◌, refl, ap, ◌∙◌, inl, inr, Bool, true, false, List, [], ◌∷◌, Option,
  none, some, arith, length, length-append, get_elem?, set, All, All-weaken, Bool-cases,
  if◌then◌else◌,
}
use camlispp.Config.{Config}
use camlispp.BlobIndex.{Outcome, aborted, done, Disk, BlobIndex, empty_index}
use camlispp.BlobIndex.Invariant.{IsSound, empty_index-IsSound}
use camlispp.Http.RequestParser.{Tribool, is_true, is_false, indeterminate, Parsed, parse}
use camlispp.Http.Reply.{Reply, to_buffers, bad_request, stock_reply}
use camlispp.Http.RequestHandler.{Libraries}
use camlispp.Http.RequestHandler.Routes.{handle_request-Returns}
use camlispp.Http.RequestHandler.Invariant.{handle_request-IsSound}
use camlispp.Http.Connection.{
  Phase, reading, writing, shut, dropped, Connection, start, Event, read, read_failed,
  write_finished, write_failed, after_parse, handle_read, handle_event, replied, write_reply,
}
use camlispp.Server.{
  Server, ServerEvent, accepted, accept_failed, on, signal, new_server, start_accept, handle_accept,
  handle_stop, put_connection, handle_at, handle_on, handle_server_event, run_service,
}
use camlispp.Server.Objects.{
  IsLaid, get_elem?-All, All-snoc, new_server-IsLaid, accepted-IsLaid, accept_failed-IsLaid,
  put-IsLaid,
}

-- The connection has written no reply while it reads, and at most one afterwards.
abbrev writes_in : Phase → ℕ
writes_in reading = 0
writes_in _ = 1

abbrev pub IsSingle : Connection → Type 0
IsSingle c = length c.written ≤ writes_in c.phase

writes_in_le : (ph : Phase) → writes_in ph ≤ 1
writes_in_le reading = omega arith
writes_in_le writing = omega arith
writes_in_le shut = omega arith
writes_in_le dropped = omega arith

write_reply-IsSingle :
    (d : Parsed) (c : Connection) (rep : Reply)
    → c.phase ≡ reading
    → IsSingle c
    → IsSingle (write_reply d c rep)
write_reply-IsSingle d c rep h s =
    omega (arith, length-append c.written (to_buffers rep ∷ []), ap writes_in h)

module _ (l : Libraries) (config : Config) where
  -- What one handler of a connection leaves.
  abbrev Handled : Connection → BlobIndex → Outcome (Connection × BlobIndex) → Type 0
  Handled c i o =
      (d : Connection) × (j : BlobIndex) × (o ≡ done (d, j))
      × (IsSound i → IsSound j)
      × (IsSingle c → IsSingle d)

  after_parse-Handled :
      (b : Tribool) (d : Parsed) (c : Connection) (i : BlobIndex)
      → c.phase ≡ reading
      → Handled c i (after_parse l config b d c i)
  unfolding after_parse
  after_parse-Handled is_true d c i h =
      let ((rep, j), e) = handle_request-Returns l config d.request i in
      (
        write_reply d c rep,
        j,
        ap (replied d c) e,
        λ s. handle_request-IsSound l config d.request i j rep s e,
        write_reply-IsSingle d c rep h,
      )
  after_parse-Handled is_false d c i h =
      (_, i, refl, λ s. s, write_reply-IsSingle d c (stock_reply bad_request) h)
  after_parse-Handled indeterminate d c i h = (_, i, refl, λ s. s, λ s. s)

  handle_event-Handled :
      (ph : Phase) (e : Event) (c : Connection) (i : BlobIndex)
      → c.phase ≡ ph
      → Handled c i (handle_event l config ph e c i)
  unfolding handle_event handle_read
  handle_event-Handled reading (read input) c i h =
      let d = parse c.parser c.request input in after_parse-Handled d.result d c i h
  handle_event-Handled reading read_failed c i h =
      (_, i, refl, λ s. s, λ s. omega (arith, ap writes_in h))
  handle_event-Handled reading write_finished c i h = (c, i, refl, λ s. s, λ s. s)
  handle_event-Handled reading write_failed c i h = (c, i, refl, λ s. s, λ s. s)
  handle_event-Handled writing (read input) c i h = (c, i, refl, λ s. s, λ s. s)
  handle_event-Handled writing read_failed c i h = (c, i, refl, λ s. s, λ s. s)
  handle_event-Handled writing write_finished c i h =
      (_, i, refl, λ s. s, λ s. omega (arith, ap writes_in h))
  handle_event-Handled writing write_failed c i h =
      (_, i, refl, λ s. s, λ s. omega (arith, ap writes_in h))
  handle_event-Handled shut (read input) c i h = (c, i, refl, λ s. s, λ s. s)
  handle_event-Handled shut read_failed c i h = (c, i, refl, λ s. s, λ s. s)
  handle_event-Handled shut write_finished c i h = (c, i, refl, λ s. s, λ s. s)
  handle_event-Handled shut write_failed c i h = (c, i, refl, λ s. s, λ s. s)
  handle_event-Handled dropped (read input) c i h = (c, i, refl, λ s. s, λ s. s)
  handle_event-Handled dropped read_failed c i h = (c, i, refl, λ s. s, λ s. s)
  handle_event-Handled dropped write_finished c i h = (c, i, refl, λ s. s, λ s. s)
  handle_event-Handled dropped write_failed c i h = (c, i, refl, λ s. s, λ s. s)

at_most_one : (c : Connection) → IsSingle c → length c.written ≤ 1
at_most_one c s = omega (arith, writes_in_le c.phase)

-- The invariant of the server.
pub record IsServing (s : Server) : Type 0 where
  pub sound : IsSound s.index
  pub single : All IsSingle s.heap
  pub laid : IsLaid s

All-set {ℓ κ} :
    {A : Type ℓ} (P : A → Type κ) (xs : List A) (n : ℕ) (a : A)
    → P a
    → All P xs
    → All P (set xs n a)
All-set P [] n a p h = h
All-set P (x ∷ xs) zero a p h = (p, h.1)
All-set P (x ∷ xs) (suc n) a p h = (h.0, All-set P xs n a p h.1)

start-IsSingle : (u : ℕ) → IsSingle (start u)
start-IsSingle u = omega arith

module _ (l : Libraries) (config : Config) where
  abbrev Keeps : Outcome Server → Type 0
  Keeps o = (t : Server) × (o ≡ done t) × IsServing t

  handle_at-Keeps :
      (a : ℕ) (e : Event) (s : Server) (o : Option Connection)
      → get_elem? s.heap a ≡ o
      → IsServing s
      → Keeps (handle_at l config a e s o)
  handle_at-Keeps a e s none h v = (s, refl, v)
  handle_at-Keeps a e s (some c) h v =
      let (d, j, q, sound, single) = handle_event-Handled l config c.phase e c s.index refl in
      (
        _,
        ap (put_connection a s) q,
        record {
          sound = sound v.sound;
          single =
              All-set IsSingle s.heap a d (single (get_elem?-All IsSingle s.heap a c v.single h))
                v.single;
          laid = put-IsLaid a d j s v.laid;
        },
      )

  handle_on-Keeps :
      (e : Event) (s : Server) (o : Option ℕ) → IsServing s → Keeps (handle_on l config e s o)
  handle_on-Keeps e s none v = (s, refl, v)
  handle_on-Keeps e s (some a) v = handle_at-Keeps a e s (get_elem? s.heap a) refl v

  handle_server_event-Keeps :
      (e : ServerEvent) (s : Server) → IsServing s → Keeps (handle_server_event l config e s)
  unfolding handle_server_event
  handle_server_event-Keeps (accepted u) s v = (
    _,
    refl,
    record {
      sound = unfold handle_accept start_accept in v.sound;
      single =
          unfold handle_accept start_accept in
          All-snoc IsSingle s.heap (start u) v.single (start-IsSingle u);
      laid = accepted-IsLaid u s v.laid;
    },
  )
  handle_server_event-Keeps (accept_failed u) s v = (
    _,
    refl,
    record {
      sound = unfold handle_accept start_accept in v.sound;
      single =
          unfold handle_accept start_accept in
          All-snoc IsSingle s.heap (start u) v.single (start-IsSingle u);
      laid = accept_failed-IsLaid u s v.laid;
    },
  )
  handle_server_event-Keeps (on n e) s v = handle_on-Keeps e s (get_elem? s.connections n) v
  handle_server_event-Keeps signal s v = (
    _,
    refl,
    record {
      sound = unfold handle_stop in v.sound;
      single = unfold handle_stop in v.single;
      laid =
          unfold handle_stop in
          record { pending = v.laid.pending; below = v.laid.below; apart = v.laid.apart };
    },
  )

  abbrev after_event : List ServerEvent → Outcome Server → Outcome Server
  after_event es o = elim o [ aborted ↦ aborted | done t ↦ run_service l config es t ]

  pub run_service_stopped :
      (es : List ServerEvent) (s : Server) → s.stopped ≡ true → run_service l config es s ≡ done s
  unfolding run_service
  run_service_stopped [] s h = refl
  run_service_stopped (e ∷ es) s h = rw (h, run_service) refl

  pub run_service-step :
      (e : ServerEvent) (es : List ServerEvent) (s t : Server)
      → s.stopped ≡ false
      → handle_server_event l config e s ≡ done t
      → run_service l config (e ∷ es) s ≡ run_service l config es t
  unfolding run_service
  run_service-step e es s t h k =
      ap (λ (b : Bool). if b then done s else after_event es (handle_server_event l config e s)) h
      ∙ ap (after_event es) k

  run_service-Keeps :
      (es : List ServerEvent) (s : Server) → IsServing s → Keeps (run_service l config es s)
  run_service-Keeps [] s v = (s, unfold run_service in refl, v)
  run_service-Keeps (e ∷ es) s v = elim (Bool-cases s.stopped) [
    | inl h ↦ (s, run_service_stopped (e ∷ es) s h, v)
    | inr h ↦
        let (t, k, w) = handle_server_event-Keeps e s v in
        let (u, m, x) = run_service-Keeps es t w in (u, run_service-step e es s t h k ∙ m, x)
  ]

new_server-IsServing : (u : ℕ) (i : BlobIndex) → IsSound i → IsServing (new_server u i)
unfolding new_server start_accept
new_server-IsServing u i h = record {
  sound = h;
  single = (start-IsSingle u, tt);
  laid = new_server-IsLaid u i;
}

-- Whatever is accepted, read and written on any number of connections, in whatever order, on an
-- index that was empty at first, no handler ends the process; every started connection has an
-- object, and no two have the same; no object has written more than one reply; and the index is
-- sound: its map is in order, the text of every key is read back, and every address is one of
-- its heap. The handlers run one at a time.
pub run_service_answers :
    (l : Libraries) (config : Config) (d : Disk) (u : ℕ) (es : List ServerEvent)
    → (s : Server) × (run_service l config es (new_server u (empty_index d)) ≡ done s)
      × All (λ a. a < length s.heap) s.connections
      × ((m n a : ℕ)
          → get_elem? s.connections m ≡ some a
          → get_elem? s.connections n ≡ some a
          → m ≡ n)
      × All (λ c. length c.written ≤ 1) s.heap
      × IsSound s.index
run_service_answers l config d u es =
    let (s, e, v) =
      run_service-Keeps l config es (new_server u (empty_index d))
        (new_server-IsServing u (empty_index d) (empty_index-IsSound d)) in
    (
      s,
      e,
      All-weaken (λ a. a < s.new_connection) (λ a. a < length s.heap) s.connections
          (λ a h. omega (arith, v.laid.pending)) v.laid.below,
      v.laid.apart,
      All-weaken IsSingle (λ c. length c.written ≤ 1) s.heap at_most_one v.single,
      v.sound,
    )
