-- ===== src/Wifi/Control.antt =====
-- network-daemon/src/wifi/wpa_supplicant: requests on the control socket (control/mod.rs), and the commands
-- that WpaSupplicant sends (mod.rs).
pub mod Links
pub mod Cleanup
pub mod Given
pub mod Leaks
use network_daemon.Prelude.{
  ℕ, ◌+◌, Option, none, some, Bool, true, false, ◌||◌, ◌&&◌, List, [], ◌∷◌, ◌++◌, map,
  if◌then◌else◌, Result, ok, err, ltb, length, ◌==◌,
}
use network_daemon.Prelude.Set
use network_daemon.Prelude.Int.{ℤ, pos, negsuc, print_int, parse_i32}
use network_daemon.Prelude.Search.{codes, same_text, strip_prefix, lines}
use network_daemon.Prelude.Text.{as_bytes, is_whitespace, trim}
use network_daemon.Ip.{unwrap_or}
use network_daemon.Mac.{MacAddr, fmt}
use network_daemon.Wifi.Security.{Security, opened, eap, psk, unknown}
use network_daemon.Wifi.Network.{ScanResult, parse_scan_result}
use network_daemon.Wifi.Status.{SupplicantStatus, parse_status}
use network_daemon.Wifi.Commands.{
  WpaCommand, print_command, WpaCtrlError, socket, command_failed, WifiError, wpa_ctrl, scan_failed,
  get_scan_results_failed, add_network_failed, configure_network_failed, remove_network_failed,
  connect_failed, disconnect_failed, save_config_failed, invalid_password_length, network_not_found,
  not_supported,
}
use network_daemon.Wifi.Actions.{WiFiManagerEvent}

-- The control socket of a wpa_supplicant, the supervisor, and Unicode. A request writes a text and reads
-- the reply; the state is that of all of them.
pub record Machine (State : Type 0) : Type 1 where
  pub SocketError : Type 0
  pub exchange : List ℕ → State → Result SocketError (List ℕ) × State
  pub tell : WiFiManagerEvent → State → State
  pub ask_subscribe : State → Result (List ℕ) ℕ × State
  pub from_utf8_lossy : List ℕ → List ℕ
  pub to_uppercase : List ℕ → List ℕ

-- `PSK_MIN_LEN` and `PSK_MAX_LEN`.
abbrev pub psk_min_len : ℕ
psk_min_len = 8

abbrev pub psk_max_len : ℕ
psk_max_len = 63

-- `trim_end_matches` of blanks and zeros.
unfoldable pub trim_reply : List ℕ → List ℕ
unfolding is_whitespace Set.is_empty
trim_reply [] = []
trim_reply (c ∷ s) =
    let rest = trim_reply s in
    if (is_whitespace c || c == 0) && Set.is_empty rest then [] else c ∷ rest

unfoldable pub quoted : List ℕ → List ℕ
quoted s = b'"' ∷ (s ++ b'"' ∷ [])

-- `filter_map`, of a list whose first element is skipped.
unfoldable pub parse_results : (List ℕ → Option ScanResult) → List (List ℕ) → List ScanResult
parse_results f [] = []
parse_results f (line ∷ more) =
    let rest = parse_results f more in elim (f line) [ none ↦ rest | some r ↦ r ∷ rest ]

unfoldable pub skip_header : List (List ℕ) → List (List ℕ)
skip_header [] = []
skip_header (_ ∷ more) = more

module _ {State : Type 0} (m : Machine State) where
  abbrev pub Error : Type 0
  Error = WifiError m.SocketError

  -- A method that changes only the machine.
  abbrev pub Call : Type 0 → Type 0
  Call A = State → Result Error A × State

  infixl 5 ◌>>=◌ ◌>>◌
  abbrev pub ◌>>=◌ : {A B : Type 0} → Call A → (A → Call B) → Call B
  ◌>>=◌ f k s = let (r, s') = f s in elim r [ ok a ↦ k a s' | err e ↦ (err e, s') ]

  abbrev pub ◌>>◌ : {A B : Type 0} → Call A → Call B → Call B
  f >> g = f >>= λ _. g

  abbrev pub pure : {A : Type 0} → A → Call A
  pure a s = (ok a, s)

  abbrev pub raise : {A : Type 0} → Error → Call A
  raise e s = (err e, s)

  -- `WpaCtrl::request`.
  unfoldable pub request : WpaCommand → State → Result (WpaCtrlError m.SocketError) (List ℕ) × State
  unfolding print_command trim_reply
  request cmd s =
      let (r, s') = m.exchange (print_command cmd) s in
      elim r [ err e ↦ (err (socket e), s') | ok response ↦ (ok (trim_reply response), s') ]

  -- `WpaCtrl::request_ok`.
  unfoldable pub request_ok :
      WpaCommand → State → Result (WpaCtrlError m.SocketError) (Unit {0}) × State
  unfolding request same_text
  request_ok cmd s =
      let (r, s') = request cmd s in
      elim r [
        | err e ↦ (err e, s')
        | ok response ↦
            if same_text response (codes "OK")
            then (ok tt, s')
            else (err (command_failed cmd response), s')
      ]

  -- The two, with the error converted.
  unfoldable pub ask : (WpaCtrlError m.SocketError → Error) → WpaCommand → Call (List ℕ)
  unfolding request
  ask convert cmd s =
      let (r, s') = request cmd s in elim r [ ok a ↦ (ok a, s') | err e ↦ (err (convert e), s') ]

  unfoldable pub order : (WpaCtrlError m.SocketError → Error) → WpaCommand → Call (Unit {0})
  unfolding request_ok
  order convert cmd s =
      let (r, s') = request_ok cmd s in elim r [ ok a ↦ (ok a, s') | err e ↦ (err (convert e), s') ]

  unfoldable pub scan : Call (Unit {0})
  unfolding order
  scan = order (λ _. scan_failed) WpaCommand.scan

  unfoldable pub set_passive_scan : Bool → Call (Unit {0})
  unfolding order
  set_passive_scan enable =
      order wpa_ctrl
        (WpaCommand.set (codes "passive_scan") (if enable then codes "1" else codes "0"))

  unfoldable pub get_scan_results : Call (List ScanResult)
  unfolding ask lines skip_header parse_results parse_scan_result
  get_scan_results = do
    response ← ask (λ _. get_scan_results_failed) WpaCommand.scan_results
    pure (
        parse_results (parse_scan_result m.to_uppercase m.from_utf8_lossy)
          (skip_header (lines response)))

  unfoldable pub get_network_value : ℤ → List ℕ → Call (List ℕ)
  unfolding ask same_text
  get_network_value nwid key = do
    response ← ask wpa_ctrl (WpaCommand.get_network nwid key)
    if same_text response (codes "FAIL") then raise (network_not_found nwid) else pure response

  unfoldable pub set_network_value : ℤ → List ℕ → List ℕ → Call (Unit {0})
  unfolding order
  set_network_value nwid key value =
      order (λ _. configure_network_failed nwid) (WpaCommand.set_network nwid key value)

  unfoldable pub add_network : Call ℤ
  unfolding ask trim parse_i32
  add_network = do
    response ← ask (λ _. add_network_failed) WpaCommand.add_network
    elim (parse_i32 (trim response)) [ none ↦ raise add_network_failed | some nwid ↦ pure nwid ]

  unfoldable pub remove_network : ℤ → Call (Unit {0})
  unfolding order
  remove_network nwid = order (λ _. remove_network_failed nwid) (WpaCommand.remove_network nwid)

  unfoldable pub enable_network : ℤ → Call (Unit {0})
  unfolding order
  enable_network nwid = order (λ _. configure_network_failed nwid) (WpaCommand.enable_network nwid)

  unfoldable pub disable_network : ℤ → Call (Unit {0})
  unfolding order
  disable_network nwid =
      order (λ _. configure_network_failed nwid) (WpaCommand.disable_network nwid)

  unfoldable pub set_autoconnect : ℤ → Bool → Call (Unit {0})
  unfolding enable_network disable_network
  set_autoconnect nwid enable = if enable then enable_network nwid else disable_network nwid

  unfoldable pub set_priority : ℤ → ℤ → Call (Unit {0})
  unfolding set_network_value print_int
  set_priority nwid priority = set_network_value nwid (codes "priority") (print_int priority)

  unfoldable pub configure_ssid : ℤ → List ℕ → Call (Unit {0})
  unfolding set_network_value quoted
  configure_ssid nwid ssid = set_network_value nwid (codes "ssid") (quoted ssid)

  unfoldable pub configure_bssid : ℤ → MacAddr → Call (Unit {0})
  unfolding set_network_value fmt
  configure_bssid nwid bssid = set_network_value nwid (codes "bssid") (fmt bssid)

  -- Whether the length of a password, in bytes, is allowed.
  abbrev pub fits : List ℕ → Bool
  fits password =
      if ltb (length (as_bytes password)) psk_min_len
        || ltb psk_max_len (length (as_bytes password))
      then false
      else true

  unfoldable pub configure_psk : ℤ → List ℕ → Call (Unit {0})
  unfolding set_network_value quoted
  configure_psk nwid password =
      if fits password
      then set_network_value nwid (codes "psk") (quoted password)
      else raise (invalid_password_length psk_min_len psk_max_len)

  unfoldable pub configure_eap : ℤ → List ℕ → List ℕ → Call (Unit {0})
  unfolding set_network_value quoted
  configure_eap nwid identity password = do
    set_network_value nwid (codes "key_mgmt") (codes "WPA-EAP")
    set_network_value nwid (codes "eap") (codes "PEAP")
    set_network_value nwid (codes "identity") (quoted identity)
    set_network_value nwid (codes "password") (quoted password)
    set_network_value nwid (codes "phase2") (quoted (codes "auth=MSCHAPV2"))

  unfoldable pub configure_open : ℤ → Call (Unit {0})
  unfolding set_network_value
  configure_open nwid = set_network_value nwid (codes "key_mgmt") (codes "NONE")

  unfoldable pub configure_hidden : ℤ → Call (Unit {0})
  unfolding set_network_value
  configure_hidden nwid = set_network_value nwid (codes "scan_ssid") (codes "1")

  -- A step of the configuration: where it fails, the network is removed.
  unfoldable pub or_remove : ℤ → Call (Unit {0}) → Call (Unit {0})
  unfolding remove_network
  or_remove nwid step s =
      let (r, s') = step s in
      elim r [ ok _ ↦ (ok tt, s') | err e ↦ (err e, (remove_network nwid s').1) ]

  unfoldable pub configure_target : ℤ → Option MacAddr → Call (Unit {0})
  unfolding configure_bssid or_remove
  configure_target nwid none = pure tt
  configure_target nwid (some bssid) = or_remove nwid (configure_bssid nwid bssid)

  -- The `match` on the security. A secret that is missing returns at once.
  unfoldable pub configure_security :
      ℤ → Security → Option (List ℕ) → Option (List ℕ) → Call (Unit {0})
  unfolding configure_open configure_psk configure_eap or_remove unwrap_or
  configure_security nwid opened password identity = or_remove nwid (configure_open nwid)
  configure_security nwid psk none identity =
      raise (invalid_password_length psk_min_len psk_max_len)
  configure_security nwid psk (some password) identity =
      or_remove nwid (configure_psk nwid password)
  configure_security nwid eap password none = raise (not_supported (codes "EAP requires identity"))
  configure_security nwid eap password (some id) =
      or_remove nwid (configure_eap nwid id (unwrap_or [] password))
  configure_security nwid unknown password identity =
      or_remove nwid (raise (not_supported (codes "unknown security type")))

  unfoldable pub configure_visibility : ℤ → Bool → Call (Unit {0})
  unfolding configure_hidden or_remove
  configure_visibility nwid hidden =
      if hidden then or_remove nwid (configure_hidden nwid) else pure tt

  -- The configuration of a network that was added.
  unfoldable pub configure_network :
      List ℕ → Option MacAddr → Security → Option (List ℕ) → Option (List ℕ) → Bool → ℤ → Call ℤ
  unfolding configure_ssid configure_target configure_security configure_visibility enable_network
      or_remove
  configure_network ssid bssid security password identity hidden nwid = do
    or_remove nwid (configure_ssid nwid ssid)
    configure_target nwid bssid
    configure_security nwid security password identity
    configure_visibility nwid hidden
    enable_network nwid
    pure nwid

  unfoldable pub add_and_configure_network :
      List ℕ → Option MacAddr → Security → Option (List ℕ) → Option (List ℕ) → Bool → Call ℤ
  unfolding add_network configure_network
  add_and_configure_network ssid bssid security password identity hidden =
      add_network >>= configure_network ssid bssid security password identity hidden
