-- ===== src/Wifi/Commands.antt =====
-- libnetwork-daemon/src/wifi/mod.rs: the commands to wpa_supplicant and their text;
-- libnetwork-daemon/src/error/wifi.rs: the errors.
use network_daemon.Prelude.{ℕ, Option, none, some, List, ◌∷◌, ◌++◌}
use network_daemon.Prelude.Int.{ℤ, print_int}
use network_daemon.Prelude.Search.{codes}
use network_daemon.Mac.{MacAddr}

pub data WpaCommand : Type 0 where
  bss : List ℕ → WpaCommand
  ping scan scan_results status : WpaCommand
  set : List ℕ → List ℕ → WpaCommand
  add_network : WpaCommand
  set_network : ℤ → List ℕ → List ℕ → WpaCommand
  get_network : ℤ → List ℕ → WpaCommand
  list_networks : WpaCommand
  enable_network : ℤ → WpaCommand
  disable_network : ℤ → WpaCommand
  remove_network : ℤ → WpaCommand
  select_network : Option ℤ → WpaCommand
  reassociate reconfigure disconnect reconnect attach detach save_config : WpaCommand
  unknown_command : List ℕ → WpaCommand

-- `Display`.
unfoldable pub print_command : WpaCommand → List ℕ
unfolding print_int
print_command (bss addr) = codes "BSS " ++ addr
print_command ping = codes "PING"
print_command scan = codes "SCAN"
print_command scan_results = codes "SCAN_RESULTS"
print_command status = codes "STATUS"
print_command (set key value) = codes "SET " ++ (key ++ b' ' ∷ value)
print_command add_network = codes "ADD_NETWORK"
print_command (set_network id key value) =
    codes "SET_NETWORK " ++ (print_int id ++ b' ' ∷ (key ++ b' ' ∷ value))
print_command (get_network id key) = codes "GET_NETWORK " ++ (print_int id ++ b' ' ∷ key)
print_command list_networks = codes "LIST_NETWORKS"
print_command (enable_network id) = codes "ENABLE_NETWORK " ++ print_int id
print_command (disable_network id) = codes "DISABLE_NETWORK " ++ print_int id
print_command (remove_network id) = codes "REMOVE_NETWORK " ++ print_int id
print_command (select_network (some id)) = codes "SELECT_NETWORK " ++ print_int id
print_command (select_network none) = codes "SELECT_NETWORK any"
print_command reassociate = codes "REASSOCIATE"
print_command reconfigure = codes "RECONFIGURE"
print_command disconnect = codes "DISCONNECT"
print_command reconnect = codes "RECONNECT"
print_command attach = codes "ATTACH"
print_command detach = codes "DETACH"
print_command save_config = codes "SAVE_CONFIG"
print_command (unknown_command cmd) = cmd

-- The failure of a request: of the socket, or the answer of a command that failed.
pub data WpaCtrlError (SocketError : Type 0) : Type 0 where
  socket : SocketError → WpaCtrlError SocketError
  command_failed : WpaCommand → List ℕ → WpaCtrlError SocketError

pub data WifiError (SocketError : Type 0) : Type 0 where
  wpa_ctrl : WpaCtrlError SocketError → WifiError SocketError
  scan_failed get_scan_results_failed : WifiError SocketError
  ssid_unavailable : List ℕ → WifiError SocketError
  known_network_not_found : List ℕ → Option MacAddr → WifiError SocketError
  add_network_failed : WifiError SocketError
  configure_network_failed : ℤ → WifiError SocketError
  remove_network_failed : ℤ → WifiError SocketError
  connect_failed disconnect_failed save_config_failed : WifiError SocketError
  invalid_password_length : ℕ → ℕ → WifiError SocketError
  parse_error : List ℕ → WifiError SocketError
  network_not_found : ℤ → WifiError SocketError
  not_supported : List ℕ → WifiError SocketError
