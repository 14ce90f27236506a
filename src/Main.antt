-- ===== src/Main.antt =====
-- blobserver/src/blobserver.cpp: what main makes of the options, and whether it goes on to serve.
-- The parser of the command line is boost::program_options; its result is the argument.
pub mod Restart
use camlispp.Prelude.{
  ℕ, ◌≡◌, sym, ap, ◌∙◌, Bool, true, false, List, [], ◌∷◌, ◌++◌, Option, none, some, map, append-nil,
  append_assoc,
}
use camlispp.StdString.{Bytes, bytes}
use camlispp.BlobIndex.{Outcome, aborted, done, Disk, BlobIndex, empty_index}
use camlispp.Http.RequestHandler.{Libraries}
use camlispp.Server.{Server, ServerEvent, new_server, run}
use camlispp.Config.{
  Config, SyncConfig, get_and_send, sync_gets, sync_sends, default_config, new_sync_config,
  add_sync_servers, set_directory, set_ip, set_port, set_threads, set_sync_delay,
  set_static_directory,
}

-- variables_map: the value of each option that was given
pub record Options : Type 0 where
  pub help : Bool
  pub directory : Option Bytes
  pub static_directory : Option Bytes
  pub ip : Option Bytes
  pub port : Option Bytes
  pub sync : Option (List Bytes)
  pub threads : Option ℕ
  pub sync_delay : Option ℕ

-- `if (vm.count(...)) config.set(vm[...])`
abbrev pub given {ℓ} : {A : Type ℓ} → Option A → (A → Config → Config) → Config → Config
given none set c = c
given (some a) set c = set a c

abbrev pub static_given : Option Bytes → Config → Config
static_given none c = set_static_directory (bytes "./static/") c
static_given (some directory) c = set_static_directory directory c

-- the config of main, in the order of its tests
unfoldable pub config_of : Options → Config
unfolding add_sync_servers
config_of vm =
    let c1 = given vm.directory set_directory default_config in
    let c2 = static_given vm.static_directory c1 in
    let c3 = given vm.ip set_ip c2 in
    let c4 = given vm.port set_port c3 in
    let c5 = given vm.sync add_sync_servers c4 in
    let c6 = given vm.threads set_threads c5 in given vm.sync_delay set_sync_delay c6

-- `--help` ends main with 1; otherwise it serves with the config.
pub data Started : Type 0 where
  exits : ℕ → Started
  serves : Config → Started

unfoldable pub main : Options → Started
unfolding config_of
main vm = elim vm.help [ true ↦ exits 1 | false ↦ serves (config_of vm) ]

-- the index that main serves with: what was saved is not loaded
unfoldable pub first_index : Disk → BlobIndex
first_index d = empty_index d

-- How main ends: with a code, or behind the run of its server; a failed assert ends it too.
pub data Ended : Type 0 where
  exited : ℕ → Ended
  ran : Server → Ended
  died : Ended

abbrev pub ended : Outcome Server → Ended
ended aborted = died
ended (done s) = ran s

unfoldable pub serve_main : Libraries → Started → Disk → ℕ → List ServerEvent → Ended
unfolding first_index run
serve_main l (exits code) d u es = exited code
serve_main l (serves config) d u es =
    ended (run l config config.threads es (new_server u (first_index d)))

-- The settings that the options name, each by its own default.
abbrev pub or_default {ℓ} : {A : Type ℓ} → Option A → A → A
or_default none a = a
or_default (some b) a = b

-- The servers are appended as they are given, in their order.
pub add_sync_servers-map :
    (hosts : List Bytes) (c : Config)
    → add_sync_servers hosts c
      ≡ record c { sync_servers = c.sync_servers ++ map new_sync_config hosts }
unfolding add_sync_servers
add_sync_servers-map [] c =
    ap (λ (s : List SyncConfig). record c { sync_servers = s }) (sym (append-nil c.sync_servers))
add_sync_servers-map (host ∷ hosts) c =
    add_sync_servers-map hosts
      (record c { sync_servers = c.sync_servers ++ new_sync_config host ∷ [] })
    ∙ ap (λ (s : List SyncConfig). record c { sync_servers = s })
        (append_assoc c.sync_servers (new_sync_config host ∷ []) (map new_sync_config hosts))

-- a server that is fetched from and sent to
abbrev pub both_directions : Bytes → SyncConfig
both_directions host = record { host = host; mode = get_and_send }

-- what the options say, written out
abbrev pub settings : Options → Config
settings vm = record {
  directory = or_default vm.directory (bytes "/tmp/");
  ip = or_default vm.ip (bytes "0.0.0.0");
  port = or_default vm.port (bytes "8080");
  threads = or_default vm.threads 2;
  validate = true;
  sync_delay = or_default vm.sync_delay 60;
  sync_servers = map both_directions (or_default vm.sync []);
  static_directory = or_default vm.static_directory (bytes "./static/");
}

-- Each server is fetched from, and sent to.
abbrev pub IsBothWays : SyncConfig → Type 0
IsBothWays c = (sync_gets c ≡ true) × (sync_sends c ≡ true)
