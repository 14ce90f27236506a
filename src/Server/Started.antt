-- ===== src/Server/Started.antt =====
-- A connection that was started keeps its object, and what it does depends on its own events alone.
use camlispp.Prelude.{
  ℕ, ◌≡◌, ◌≢◌, refl, sym, ap, ◌∙◌, inl, inr, true, false, List, [], ◌∷◌, Option, none, some,
  get_elem?, set, get_elem?-set_ne, get_elem?-set_there, get_elem?-append_there, Bool-cases,
  if◌then◌else◌, ◌==◌, ==_iff,
}
use camlispp.Config.{Config}
use camlispp.BlobIndex.{Outcome, done, BlobIndex}
use camlispp.Http.RequestHandler.{Libraries}
use camlispp.Http.Connection.{Phase, Connection, start, Event, handle_event, run_connection}
use camlispp.Http.Connection.Chunks.{follow, run-follow}
use camlispp.Server.{
  Server, ServerEvent, accepted, accept_failed, on, signal, start_accept, handle_accept,
  handle_stop, connection_at, put_connection, handle_at, handle_on, handle_server_event,
  run_service,
}
use camlispp.Server.Objects.{IsLaid, accepted-IsLaid, accept_failed-IsLaid, put-IsLaid}
use camlispp.Server.Runs.{run_service-step, run_service_stopped}
use camlispp.Server.Alike.{IsAlike, IsAlike-refl, event-BothAlike}

-- The events of one connection, up to the signal that stops the server.
unfoldable pub own : ℕ → List ServerEvent → List Event
own n [] = []
own n (accepted u ∷ es) = own n es
own n (accept_failed u ∷ es) = own n es
own n (on m e ∷ es) = let rest = own n es in if m == n then e ∷ rest else rest
own n (signal ∷ es) = []

module _ (l : Libraries) (config : Config) where
  -- The connection `n` of a run is alike to `d`, run on the events `mine`.
  abbrev pub Matches : ℕ → List ServerEvent → List Event → Server → Connection → BlobIndex → Type 0
  Matches n es mine s d i =
      (t : Server) × (c' : Connection) × (d' : Connection) × (j : BlobIndex) × (run_service l config
          es s
        ≡ done t)
      × (connection_at n t ≡ some c')
      × (run_connection l config mine d i ≡ done (d', j))
      × IsAlike c' d'

  pub Matches-step :
      (n : ℕ) (e : ServerEvent) (es : List ServerEvent) (mine : List Event) (s t : Server)
      (d : Connection) (i : BlobIndex)
      → s.stopped ≡ false
      → handle_server_event l config e s ≡ done t
      → Matches n es mine t d i
      → Matches n (e ∷ es) mine s d i
  Matches-step n e es mine s t d i h k (u, c', d', j, ran, at, alone, a) =
      (u, c', d', j, run_service-step l config e es s t h k ∙ ran, at, alone, a)

  pub Matches-events :
      (n : ℕ) (es : List ServerEvent) (mine other : List Event) (s : Server) (d : Connection)
      (i : BlobIndex)
      → other ≡ mine
      → Matches n es mine s d i
      → Matches n es other s d i
  Matches-events n es mine other s d i e (u, c', d', j, ran, at, alone, a) =
      (u, c', d', j, ran, at, ap (λ (xs : List Event). run_connection l config xs d i) e ∙ alone, a)

  own-same :
      (n m : ℕ) (e : Event) (es : List ServerEvent)
      → (m == n) ≡ true
      → own n (on m e ∷ es) ≡ e ∷ own n es
  unfolding own
  own-same n m e es h = rw h refl

  own_other :
      (n m : ℕ) (e : Event) (es : List ServerEvent)
      → (m == n) ≡ false
      → own n (on m e ∷ es) ≡ own n es
  unfolding own
  own_other n m e es h = rw h refl

  -- A handler of another connection leaves the object of an address.
  abbrev pub Leaves : ℕ → Server → Connection → Outcome Server → Type 0
  Leaves a s c o =
      (t : Server) × (o ≡ done t)
      × (t.connections ≡ s.connections)
      × (t.new_connection ≡ s.new_connection)
      × (get_elem? t.heap a ≡ some c)
      × (t.stopped ≡ s.stopped)
      × IsLaid t

  handle_at_other :
      (a b : ℕ) (e : Event) (s : Server) (c : Connection) (o : Option Connection)
      → b ≢ a
      → get_elem? s.heap a ≡ some c
      → IsLaid s
      → Leaves a s c (handle_at l config b e s o)
  handle_at_other a b e s c none ne h v = (s, refl, refl, refl, h, refl, v)
  handle_at_other a b e s c (some x) ne h v =
      let (x', i', y, j, q, f, z) =
        event-BothAlike l config x.phase e x x s.index s.index (IsAlike-refl x) in
      (
        _,
        ap (put_connection b s) q,
        refl,
        refl,
        get_elem?-set_ne s.heap b a x' ne ∙ h,
        refl,
        put-IsLaid b x' i' s v,
      )

  pub handle_on_other :
      (a m : ℕ) (e : Event) (s : Server) (c : Connection) (o : Option ℕ)
      → get_elem? s.connections m ≡ o
      → ((b : ℕ) → get_elem? s.connections m ≡ some b → b ≢ a)
      → get_elem? s.heap a ≡ some c
      → IsLaid s
      → Leaves a s c (handle_on l config e s o)
  handle_on_other a m e s c none r ne h v = (s, refl, refl, refl, h, refl, v)
  handle_on_other a m e s c (some b) r ne h v =
      handle_at_other a b e s c (get_elem? s.heap b) (ne b r) h v

  -- a started connection, its object, and the one that it is alike to
  pub record Stands (n a : ℕ) (s : Server) (c d : Connection) : Type 0 where
    pub running : s.stopped ≡ false
    pub laid : IsLaid s
    pub started : get_elem? s.connections n ≡ some a
    pub object : get_elem? s.heap a ≡ some c
    pub alike : IsAlike c d

  accepted-Stands :
      (n a u : ℕ) (s : Server) (c d : Connection)
      → Stands n a s c d
      → Stands n a (handle_accept false u s) c d
  accepted-Stands n a u s c d v = record {
    running = unfold handle_accept start_accept in v.running;
    laid = accepted-IsLaid u s v.laid;
    started =
        unfold handle_accept start_accept in
        get_elem?-append_there s.connections (s.new_connection ∷ []) n a v.started;
    object =
        unfold handle_accept start_accept in
        get_elem?-append_there s.heap (start u ∷ []) a c v.object;
    alike = v.alike;
  }

  accept_failed-Stands :
      (n a u : ℕ) (s : Server) (c d : Connection)
      → Stands n a s c d
      → Stands n a (handle_accept true u s) c d
  accept_failed-Stands n a u s c d v = record {
    running = unfold handle_accept start_accept in v.running;
    laid = accept_failed-IsLaid u s v.laid;
    started = unfold handle_accept start_accept in v.started;
    object =
        unfold handle_accept start_accept in
        get_elem?-append_there s.heap (start u ∷ []) a c v.object;
    alike = v.alike;
  }

  -- an event of this connection
  Matches-own :
      (n m a : ℕ) (e : Event) (es : List ServerEvent) (s : Server) (c d : Connection)
      (i : BlobIndex)
      → Stands n a s c d
      → (m == n) ≡ true
      → ((t : Server)
          → (c1 d1 : Connection) → (j1 : BlobIndex) → Stands n a t c1 d1
          → Matches n es (own n es) t d1 j1)
      → Matches n (on m e ∷ es) (own n (on m e ∷ es)) s d i
  Matches-own n m a e es s c d i v eq ih =
      let same = (==_iff m n).0 eq in
      let (c1, i1, d1, j1, q, f, a1) = event-BothAlike l config c.phase e c d s.index i v.alike in
      let t = record s { heap = set s.heap a c1; index = i1 } in
      let handled : handle_on l config e s (get_elem? s.connections m) ≡ done t =
        ap (handle_on l config e s) (ap (get_elem? s.connections) same ∙ v.started)
        ∙ ap (handle_at l config a e s) v.object
        ∙ ap (put_connection a s) q in
      let (u, c', d', j, ran, at', alone, a') = ih t c1 d1 j1 (record {
        running = v.running;
        laid = put-IsLaid a c1 i1 s v.laid;
        started = v.started;
        object = get_elem?-set_there s.heap a c c1 v.object;
        alike = a1;
      }) in
      let moved_on = ap (λ (ph : Phase). handle_event l config ph e d i) (sym v.alike.phase) ∙ f in
      (
        u,
        c',
        d',
        j,
        run_service-step l config (on m e) es s t v.running (unfold handle_server_event in handled)
            ∙ ran,
        at',
        ap (λ (xs : List Event). run_connection l config xs d i) (own-same n m e es eq)
            ∙ run-follow l config e (own n es) d i
            ∙ ap (λ (o : Outcome (Connection × BlobIndex)). follow l config o (own n es)) moved_on
            ∙ alone,
        a',
      )

  pub run_service-Matches :
      (n a : ℕ) (es : List ServerEvent) (s : Server) (c d : Connection) (i : BlobIndex)
      → Stands n a s c d
      → Matches n es (own n es) s d i
  run_service-Matches n a [] s c d i v = (
    s,
    c,
    d,
    i,
    unfold run_service in refl,
    rw (v.started, connection_at) v.object,
    unfold own run_connection in refl,
    v.alike,
  )
  run_service-Matches n a (accepted u ∷ es) s c d i v =
      Matches-step n (accepted u) es (own n (accepted u ∷ es)) s (handle_accept false u s) d i
        v.running (unfold handle_server_event in refl)
        (Matches-events n es (own n es) (own n (accepted u ∷ es)) (handle_accept false u s) d i
          (unfold own in refl)
          (run_service-Matches n a es (handle_accept false u s) c d i
            (accepted-Stands n a u s c d v)))
  run_service-Matches n a (accept_failed u ∷ es) s c d i v =
      Matches-step n (accept_failed u) es (own n (accept_failed u ∷ es)) s (handle_accept true u s)
        d i v.running (unfold handle_server_event in refl)
        (Matches-events n es (own n es) (own n (accept_failed u ∷ es)) (handle_accept true u s) d i
          (unfold own in refl)
          (run_service-Matches n a es (handle_accept true u s) c d i
            (accept_failed-Stands n a u s c d v)))
  run_service-Matches n a (signal ∷ es) s c d i v =
      let t = handle_stop s in
      (
        t,
        c,
        d,
        i,
        run_service-step l config signal es s t v.running (unfold handle_server_event in refl)
            ∙ run_service_stopped l config es t (unfold handle_stop in refl),
        unfold handle_stop in rw (v.started, connection_at) v.object,
        unfold own run_connection in refl,
        v.alike,
      )
  run_service-Matches n a (on m e ∷ es) s c d i v = elim (Bool-cases (m == n)) [
    | inr ne ↦
        let (t, k, same, next, at, h, w) =
          handle_on_other a m e s c (get_elem? s.connections m) refl
            (λ b r q.
              let r' : get_elem? s.connections m ≡ some a = r ∙ ap some q in
              let p = v.laid.apart m n a r' v.started in cc ((==_iff m n).1 p))
            v.object v.laid in
        let w' : Stands n a t c d = record {
          running = h ∙ v.running;
          laid = w;
          started = ap (λ (xs : List ℕ). get_elem? xs n) same ∙ v.started;
          object = at;
          alike = v.alike;
        } in
        Matches-step n (on m e) es (own n (on m e ∷ es)) s t d i v.running
          (unfold handle_server_event in k)
          (Matches-events n es (own n es) (own n (on m e ∷ es)) t d i (own_other n m e es ne)
            (run_service-Matches n a es t c d i w'))
    | inl eq ↦ Matches-own n m a e es s c d i v eq (run_service-Matches n a es)
  ]
