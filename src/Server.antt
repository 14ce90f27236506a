-- ===== src/Server.antt =====
-- blobserver/src/server.cpp: the accept loop, and the handlers of the connections. A connection is
-- an object of a heap, and a shared_ptr to it is an address. The handlers run one at a time here,
-- in any order; handlers that run beside each other on the threads of the pool are not modelled.
-- An event of a connection is the end of an operation that it started.
pub mod Objects
pub mod Runs
pub mod Alike
pub mod Started
pub mod Isolation
use camlispp.Prelude.{
  ℕ, Bool, true, false, not, List, [], ◌∷◌, ◌++◌, Option, none, some, if◌then◌else◌, get_elem?, set,
  ◌==◌, length,
}
use camlispp.Config.{Config}
use camlispp.BlobIndex.{Outcome, aborted, done, BlobIndex}
use camlispp.Http.RequestHandler.{Libraries}
use camlispp.Http.Connection.{Connection, start, Event, handle_event}

-- The connections that were made, the address of the one for the next accept, the addresses of those
-- that were started, in the order of the accepts (start keeps one, by shared_from_this), the index
-- that all share, and whether the io_service is stopped.
pub record Server : Type 0 where
  pub heap : List Connection
  pub new_connection : ℕ
  pub connections : List ℕ
  pub index : BlobIndex
  pub stopped : Bool

-- What the io_service calls a handler for. A number stands for what a new connection's parser has
-- in the members that are not initialised.
pub data ServerEvent : Type 0 where
  accepted accept_failed : ℕ → ServerEvent
  on : ℕ → Event → ServerEvent
  signal : ServerEvent

-- reset: a new object, and its address in new_connection
unfoldable pub start_accept : ℕ → Server → Server
start_accept u s = record s { heap = s.heap ++ (start u ∷ []); new_connection = length s.heap }

-- the constructor; new_connection is null in front of its start_accept
unfoldable pub new_server : ℕ → BlobIndex → Server
unfolding start_accept
new_server u i =
    start_accept u
      (record { heap = []; new_connection = 0; connections = []; index = i; stopped = false })

abbrev pub start_new : Bool → Server → Server
start_new e s =
    if not e then record s { connections = s.connections ++ (s.new_connection ∷ []) } else s

-- `e` is whether there is an error
unfoldable pub handle_accept : Bool → ℕ → Server → Server
unfolding start_accept
handle_accept e u s = start_accept u (start_new e s)

unfoldable pub handle_stop : Server → Server
handle_stop s = record s { stopped = true }

-- the object of a started connection
abbrev pub connection_at : ℕ → Server → Option Connection
connection_at n s = elim (get_elem? s.connections n) [ none ↦ none | some a ↦ get_elem? s.heap a ]

abbrev pub put_connection : ℕ → Server → Outcome (Connection × BlobIndex) → Outcome Server
put_connection a s aborted = aborted
put_connection a s (done (c, i)) = done (record s { heap = set s.heap a c; index = i })

module _ (l : Libraries) (config : Config) where
  -- an event at the object of an address
  abbrev pub handle_at : ℕ → Event → Server → Option Connection → Outcome Server
  handle_at a e s none = done s
  handle_at a e s (some c) = put_connection a s (handle_event l config c.phase e c s.index)

  abbrev pub handle_on : Event → Server → Option ℕ → Outcome Server
  handle_on e s none = done s
  handle_on e s (some a) = handle_at a e s (get_elem? s.heap a)

  unfoldable pub handle_server_event : ServerEvent → Server → Outcome Server
  unfolding handle_accept handle_stop handle_event
  handle_server_event (accepted u) s = done (handle_accept false u s)
  handle_server_event (accept_failed u) s = done (handle_accept true u s)
  handle_server_event (on n e) s = handle_on e s (get_elem? s.connections n)
  handle_server_event signal s = done (handle_stop s)

  -- io_service::run: no handler is called once it is stopped
  unfoldable pub run_service : List ServerEvent → Server → Outcome Server
  unfolding handle_server_event
  run_service [] s = done s
  run_service (e ∷ es) s =
      if s.stopped
      then done s
      else elim (handle_server_event e s) [ aborted ↦ aborted | done t ↦ run_service es t ]

  -- server::run, with a pool of `threads`
  unfoldable pub run : ℕ → List ServerEvent → Server → Outcome Server
  unfolding run_service
  run threads es s = let ran = run_service es s in if threads == 0 then done s else ran
