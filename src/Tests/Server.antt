-- ===== src/Tests/Server.antt =====
-- Tests of the server and of main: two connections whose reads are mixed, and a start.
use camlispp.Prelude.{
  ℕ, ◌≤◌, ◌<◌, ◌≡◌, refl, List, [], ◌∷◌, none, some, length, All, get_elem?, false,
}
use camlispp.StdString.{bytes}
use camlispp.BlobIndex.{done, BlobIndex}
use camlispp.BlobIndex.Invariant.{IsSound}
use camlispp.Http.Reply.{not_found, stock_reply}
use camlispp.Http.RequestHandler.{handle_request}
use camlispp.Http.Connection.{Connection, start, Event, read, write_finished, run_connection}
use camlispp.Server.{Server, ServerEvent, accepted, on, new_server, connection_at, run_service}
use camlispp.Server.Runs.{run_service_answers}
use camlispp.Server.Alike.{IsAlike}
use camlispp.Server.Started.{own}
use camlispp.Server.Isolation.{life, run_service-own}
use camlispp.Main.{Options, first_index}
use camlispp.Main.Restart.{handle_request-first_index}
use camlispp.Tests.{test_libraries, test_config, test_disk, test_index}
use camlispp.Tests.Store.{hello_key, fetch_hello, fetch_hello-IsFetch}

-- two connections, the request of the first in two reads with one of the second between them
abbrev mixed : List ServerEvent
mixed =
    accepted 0
    ∷ accepted 0
    ∷ on 0 (read (bytes "GET / HT"))
    ∷ on 1 (read (bytes "nonsense"))
    ∷ on 0 (read (bytes "TP/1.0\r\n\r\n"))
    ∷ on 0 write_finished
    ∷ []

run_service_answers_example :
    (s : Server) × (run_service test_libraries test_config mixed (new_server 0 test_index) ≡ done s)
    × All (λ a. a < length s.heap) s.connections
    × ((m n a : ℕ)
        → get_elem? s.connections m ≡ some a
        → get_elem? s.connections n ≡ some a
        → m ≡ n)
    × All (λ c. length c.written ≤ 1) s.heap
    × IsSound s.index
run_service_answers_example = run_service_answers test_libraries test_config test_disk 0 mixed

-- the events of the second connection
abbrev second : List Event
second = read (bytes "nonsense") ∷ []

second-life : life 1 0 0 mixed ≡ some (0, second)
unfolding life own
second-life = refl

run_service-own_example :
    (t : Server) × (c : Connection) × (d : Connection) × (j : BlobIndex) × (run_service
        test_libraries test_config mixed
        (new_server 0 test_index)
      ≡ done t)
    × (connection_at 1 t ≡ some c)
    × (run_connection test_libraries test_config second (start 0) test_index ≡ done (d, j))
    × IsAlike c d
run_service-own_example =
    run_service-own test_libraries test_config 1 0 mixed test_index test_index 0 second second-life

abbrev options : Options
options = record {
  help = false;
  directory = some (bytes "/var/blobs");
  static_directory = none;
  ip = none;
  port = some (bytes "8081");
  sync = some (bytes "http://127.0.0.1:8082" ∷ []);
  threads = none;
  sync_delay = some 30;
}

handle_request-first_index_example :
    handle_request test_libraries test_config fetch_hello (first_index test_disk)
    ≡ done (stock_reply not_found, first_index test_disk)
handle_request-first_index_example =
    handle_request-first_index test_libraries test_config test_disk hello_key fetch_hello
      fetch_hello-IsFetch
