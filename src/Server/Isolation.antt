-- ===== src/Server/Isolation.antt =====
-- What a connection does depends on its own events alone: neither on the other connections nor on
-- the index, but for what its reply says.
use camlispp.Prelude.{
  ℕ, suc, ◌<◌, ◌≡◌, refl, sym, ap, ◌∙◌, subst, inl, inr, true, false, List, [], ◌∷◌, ◌++◌, Option,
  none, some, arith, length, length-append, get_elem?, get_elem?-append_there, get_elem?-append_new,
  Bool-cases, if◌then◌else◌, ◌==◌, ==_iff,
}
use camlispp.Config.{Config}
use camlispp.BlobIndex.{done, BlobIndex}
use camlispp.Http.RequestHandler.{Libraries}
use camlispp.Http.Connection.{Connection, start, Event, run_connection}
use camlispp.Server.{
  Server, ServerEvent, accepted, accept_failed, on, signal, new_server, start_accept, handle_accept,
  connection_at, handle_server_event, run_service,
}
use camlispp.Server.Objects.{
  IsLaid, get_elem?-All, new_server-IsLaid, accepted-IsLaid, accept_failed-IsLaid,
}
use camlispp.Server.Alike.{IsAlike, IsAlike-refl}
use camlispp.Server.Started.{
  own, Matches, Matches-step, Matches-events, handle_on_other, Stands, run_service-Matches,
}

-- The connection that is accepted as number `n`: what its object is made with, and its events from
-- there on. So many were accepted before, and the object for the next accept was made with `u`.
unfoldable pub life : ℕ → ℕ → ℕ → List ServerEvent → Option (ℕ × List Event)
unfolding own
life n k u [] = none
life n k u (accepted v ∷ es) =
    let rest = life n (suc k) v es in if k == n then some (u, own n es) else rest
life n k u (accept_failed v ∷ es) = life n k v es
life n k u (on m e ∷ es) = life n k u es
life n k u (signal ∷ es) = none

module _ (l : Libraries) (config : Config) where
  -- So many connections were accepted, and the object for the next one was made with `u`.
  record Waits (k u : ℕ) (s : Server) : Type 0 where
    pub running : s.stopped ≡ false
    pub laid : IsLaid s
    pub count : k ≡ length s.connections
    pub object : get_elem? s.heap s.new_connection ≡ some (start u)

  accepted-Waits :
      (k u v : ℕ) (s : Server) → Waits k u s → Waits (suc k) v (handle_accept false v s)
  accepted-Waits k u v s w = record {
    running = unfold handle_accept start_accept in w.running;
    laid = accepted-IsLaid v s w.laid;
    count =
        unfold handle_accept start_accept in
        omega (arith, w.count, length-append s.connections (s.new_connection ∷ []));
    object = unfold handle_accept start_accept in get_elem?-append_new s.heap (start v);
  }

  accept_failed-Waits : (k u v : ℕ) (s : Server) → Waits k u s → Waits k v (handle_accept true v s)
  accept_failed-Waits k u v s w = record {
    running = unfold handle_accept start_accept in w.running;
    laid = accept_failed-IsLaid v s w.laid;
    count = unfold handle_accept start_accept in w.count;
    object = unfold handle_accept start_accept in get_elem?-append_new s.heap (start v);
  }

  -- it is started by the accept
  accepted-now :
      (k u v : ℕ) (s : Server)
      → Waits k u s
      → Stands l config k s.new_connection (handle_accept false v s) (start u) (start u)
  accepted-now k u v s w = record {
    running = unfold handle_accept start_accept in w.running;
    laid = accepted-IsLaid v s w.laid;
    started =
        unfold handle_accept start_accept in
        (ap (get_elem? (s.connections ++ s.new_connection ∷ [])) w.count
          ∙ get_elem?-append_new s.connections s.new_connection);
    object =
        unfold handle_accept start_accept in
        get_elem?-append_there s.heap (start v ∷ []) s.new_connection (start u) w.object;
    alike = IsAlike-refl (start u);
  }

  life-Matches :
      (n k u : ℕ) (es : List ServerEvent) (s : Server) (v : ℕ) (mine : List Event) (i : BlobIndex)
      → life n k u es ≡ some (v, mine)
      → Waits k u s
      → Matches l config n es mine s (start v) i
  unfolding life
  life-Matches n k u [] s v mine i h w = absurd (cc)
  life-Matches n k u (signal ∷ es) s v mine i h w = absurd (cc)
  life-Matches n k u (accept_failed x ∷ es) s v mine i h w =
      Matches-step l config n (accept_failed x) es mine s (handle_accept true x s) (start v) i
        w.running (unfold handle_server_event in refl)
        (life-Matches n k x es (handle_accept true x s) v mine i h (accept_failed-Waits k u x s w))
  life-Matches n k u (on m e ∷ es) s v mine i h w =
      let a = s.new_connection in
      let (t, q, same, next, at, stop, laid) =
        handle_on_other l config a m e s (start u) (get_elem? s.connections m) refl
          (λ b r q.
            let less = get_elem?-All (λ c. c < a) s.connections m b w.laid.below r in
            absurd (omega arith))
          w.object w.laid in
      Matches-step l config n (on m e) es mine s t (start v) i w.running
        (unfold handle_server_event in q)
        (life-Matches n k u es t v mine i h (record {
          running = stop ∙ w.running;
          laid = laid;
          count = w.count ∙ ap length (sym same);
          object = ap (get_elem? t.heap) next ∙ at;
        }))
  life-Matches n k u (accepted x ∷ es) s v mine i h w =
      let t = handle_accept false x s in
      let now : handle_server_event l config (accepted x) s ≡ done t =
        unfold handle_server_event in refl in
      elim (Bool-cases (k == n)) [
        | inr ne ↦ Matches-step l config n (accepted x) es mine s t (start v) i w.running now (
            life-Matches n (suc k) x es t v mine i (sym (rw ne refl) ∙ h)
              (accepted-Waits k u x s w))
        | inl eq ↦
            let first : ◌≡◌ {A = Option (ℕ × List Event)} (some (u, own n es)) (some (v, mine)) =
              sym (rw eq refl) ∙ h in
            let seed : u ≡ v = cc in
            let events : mine ≡ own n es = cc in
            let same : k ≡ n = (==_iff k n).0 eq in
            let stands : Stands l config n s.new_connection t (start v) (start v) =
              subst (λ (y : ℕ). Stands l config n s.new_connection t (start y) (start y)) seed
                (subst (λ (y : ℕ). Stands l config y s.new_connection t (start u) (start u)) same
                  (accepted-now k u x s w)) in
            Matches-step l config n (accepted x) es mine s t (start v) i w.running now (
              Matches-events l config n es (own n es) mine t (start v) i events
                (run_service-Matches l config n s.new_connection es t (start v) (start v) i stands))
      ]

new_server-Waits :
    (l : Libraries) (config : Config) (u : ℕ) (i : BlobIndex) → Waits l config 0 u (new_server u i)
unfolding new_server start_accept
new_server-Waits l config u i = record {
  running = refl;
  laid = new_server-IsLaid u i;
  count = refl;
  object = refl;
}

-- Whatever happens on the other connections, a connection that a run accepts ends as a new one does
-- that runs alone on the same events, those of its number between its accept and the signal, and on
-- any other index: it waits for the same, its parser and its request are the same, and it has
-- given as many replies. The handlers run one at a time.
pub run_service-own :
    (l : Libraries) (config : Config) (n u : ℕ) (es : List ServerEvent) (i other : BlobIndex)
    (v : ℕ) (mine : List Event)
    → life n 0 u es ≡ some (v, mine)
    → (t : Server) × (c : Connection) × (d : Connection) × (j : BlobIndex) × (run_service l config
          es
          (new_server u i)
        ≡ done t)
      × (connection_at n t ≡ some c)
      × (run_connection l config mine (start v) other ≡ done (d, j))
      × IsAlike c d
run_service-own l config n u es i other v mine h =
    life-Matches l config n 0 u es (new_server u i) v mine other h (new_server-Waits l config u i)
