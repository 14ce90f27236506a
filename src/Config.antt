-- ===== src/Config.antt =====
-- blobserver/src/Config.cpp and Config.hpp: the settings, and the servers to sync with.
use camlispp.Prelude.{ℕ, Bool, true, false, List, [], ◌∷◌, ◌++◌}
use camlispp.StdString.{Bytes, bytes}

pub data SyncMode : Type 0 where
  get send get_and_send : SyncMode

pub record SyncConfig : Type 0 where
  pub host : Bytes
  pub mode : SyncMode

-- the constructor from a host alone
unfoldable pub new_sync_config : Bytes → SyncConfig
new_sync_config host = record { host = host; mode = get_and_send }

abbrev mode_gets : SyncMode → Bool
mode_gets get = true
mode_gets send = false
mode_gets get_and_send = true

abbrev mode_sends : SyncMode → Bool
mode_sends get = false
mode_sends send = true
mode_sends get_and_send = true

-- SyncConfig::get and SyncConfig::send
unfoldable pub sync_gets : SyncConfig → Bool
sync_gets c = mode_gets c.mode

unfoldable pub sync_sends : SyncConfig → Bool
sync_sends c = mode_sends c.mode

pub record Config : Type 0 where
  pub directory : Bytes
  pub ip : Bytes
  pub port : Bytes
  pub threads : ℕ
  pub validate : Bool
  pub sync_delay : ℕ
  pub sync_servers : List SyncConfig
  pub static_directory : Bytes

-- Config::Config()
abbrev pub default_config : Config
default_config = record {
  directory = bytes "/tmp/";
  ip = bytes "0.0.0.0";
  port = bytes "8080";
  threads = 2;
  validate = true;
  sync_delay = 60;
  sync_servers = [];
  static_directory = [];
}

-- Config::sync_servers(hosts) appends to the servers that are there
unfoldable pub add_sync_servers : List Bytes → Config → Config
unfolding new_sync_config
add_sync_servers [] c = c
add_sync_servers (host ∷ hosts) c =
    add_sync_servers hosts
      (record c { sync_servers = c.sync_servers ++ (new_sync_config host ∷ []) })

-- the setters
abbrev pub set_directory : Bytes → Config → Config
set_directory directory c = record c { directory = directory }

abbrev pub set_ip : Bytes → Config → Config
set_ip ip c = record c { ip = ip }

abbrev pub set_port : Bytes → Config → Config
set_port port c = record c { port = port }

abbrev pub set_threads : ℕ → Config → Config
set_threads threads c = record c { threads = threads }

abbrev pub set_sync_delay : ℕ → Config → Config
set_sync_delay sync_delay c = record c { sync_delay = sync_delay }

abbrev pub set_validate : Bool → Config → Config
set_validate validate c = record c { validate = validate }

abbrev pub set_static_directory : Bytes → Config → Config
set_static_directory static_directory c = record c { static_directory = static_directory }
