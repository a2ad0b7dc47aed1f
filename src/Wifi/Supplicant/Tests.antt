-- ===== src/Wifi/Supplicant/Tests.antt =====
-- network-daemon/src/wifi/wpa_supplicant/mod.rs with a wpa_supplicant that obeys every command, and gives a
-- new network the number 7. The state is what it was sent.
use network_daemon.Prelude.{
  ℕ, ◌≡◌, refl, Option, none, some, true, false, List, [], ◌∷◌, if◌then◌else◌, Result, ok, err, In,
  ℕ_discrete, ◌⊎◌,
}
use network_daemon.Prelude.Int.{ℤ, pos, negsuc, parse_i32}
use network_daemon.Prelude.Search.{codes, same_text}
use network_daemon.Prelude.Text.{as_bytes, trim}
use network_daemon.Mac.{MacAddr, fmt}
use network_daemon.Wifi.Security.{Security_discrete, psk}
use network_daemon.Wifi.Network.{KnownNetwork, current, ScanResult, parse_flags}
use network_daemon.Wifi.Commands.{invalid_password_length, print_command}
use network_daemon.Wifi.Actions.{WiFiManagerAction, WiFiManagerResponse}
use network_daemon.Wifi.Control.{
  Machine, Error, trim_reply, quoted, add_network, remove_network, enable_network,
  add_and_configure_network,
}
use network_daemon.Wifi.Control.Cleanup.{add_and_configure_network_fails}
use network_daemon.Wifi.Control.Leaks
use network_daemon.Wifi.Control.Leaks.{recorded, missing_secret_leaks}
use network_daemon.Wifi.Control.Links.{select_network}
use network_daemon.Wifi.Control.Given.{Gives}
use network_daemon.Wifi.Supplicant.{
  SsidKey, SsidKey_discrete, Text_discrete, KnownSsidEntry, WpaSupplicant, file_all, find_in,
  entry_of,
}
use network_daemon.Wifi.Supplicant.Registry.{
  new_profile, register_known_network, remove_known_network, validate, keep_secret,
  unregister_wpa_network,
}
use network_daemon.Wifi.Supplicant.Choice.{connect_known, find_best}
use network_daemon.Wifi.Supplicant.Messages.{handle, without_password}
use network_daemon.Wifi.Supplicant.Profiles.{profile, key_of}
use network_daemon.Wifi.Supplicant.Filed.{IsFiled, none-IsFiled, file_all-IsFiled, handle-IsFiled}
use network_daemon.Wifi.Supplicant.Edits.{
  Registers, register_known_network_lem, remove_known_network_lem, Sets, Names,
}
use network_daemon.Wifi.Supplicant.Connected.{connect_known_lem}
use network_daemon.Wifi.Supplicant.Selected.{Found, BeatsAll, find_best_lem}
use network_daemon.Wifi.Supplicant.Hidden.{Reveals, handle-Reveals}

abbrev Log : Type 0
Log = List (List ℕ)

abbrev obeying : Machine Log
obeying = record {
  SocketError = Unit {0};
  exchange = λ cmd log.
      (ok (if same_text cmd (codes "ADD_NETWORK") then codes "7" else codes "OK"), cmd ∷ log);
  tell = λ event log. log;
  ask_subscribe = λ log. (ok 0, log);
  from_utf8_lossy = λ s. s;
  to_uppercase = λ s. s;
}

abbrev home : KnownNetwork
home = new_profile (codes "home") none psk (some (codes "password")) none false true

abbrev home_key : SsidKey
home_key = record { ssid = codes "home"; security = psk }

abbrev supplicant : WpaSupplicant
supplicant = record {
  iface = codes "wlan0";
  scan_results = [];
  known_networks = file_all (home ∷ []) [];
  status_init = false;
}

-- What connecting sends.
connecting :
    (connect_known obeying (codes "home") none none supplicant []).2
    ≡ codes "SELECT_NETWORK 7"
      ∷ codes "ENABLE_NETWORK 7"
      ∷ codes "SET_NETWORK 7 psk \"password\""
      ∷ codes "SET_NETWORK 7 ssid \"home\""
      ∷ codes "ADD_NETWORK"
      ∷ []
unfolding connect_known file_all new_profile SsidKey_discrete Text_discrete Security_discrete
    ℕ_discrete as_bytes
connecting = refl

supplicant-IsFiled : IsFiled supplicant.known_networks
supplicant-IsFiled = file_all-IsFiled (home ∷ []) [] none-IsFiled

handle-IsFiled_example :
    IsFiled
      (handle obeying
        (WiFiManagerAction.connect (codes "home") none none)
        supplicant
        []).1.known_networks
handle-IsFiled_example =
    handle-IsFiled obeying (WiFiManagerAction.connect (codes "home") none none) supplicant []
      supplicant-IsFiled

handle-Reveals_example :
    Reveals obeying (handle obeying WiFiManagerAction.known_networks supplicant []).0
    × ((l : List KnownNetwork) × ((handle obeying WiFiManagerAction.known_networks supplicant []).0
          ≡ ok (WiFiManagerResponse.known_networks l))
        × ((key : SsidKey) (b : Option MacAddr) (n : KnownNetwork)
            → profile key b supplicant.known_networks ≡ some n
            → In (without_password n) l))
handle-Reveals_example = handle-Reveals obeying WiFiManagerAction.known_networks supplicant []

connect_known_lem_example :
    (known : KnownNetwork) × Names (codes "home") none (key_of known)
    × (profile (key_of known) known.bssid supplicant.known_networks ≡ some known)
    × ((nwid : ℤ) × Gives obeying (unregister_wpa_network obeying known []) nwid
        × ((t : Log) × (select_network obeying nwid none t
              ≡ (ok tt, (connect_known obeying (codes "home") none none supplicant []).2)))
        × Sets
            (key_of known)
            known.bssid
            (some (record known { id = some nwid; state = current }))
            supplicant.known_networks
            (connect_known obeying (codes "home") none none supplicant []).1.known_networks)
unfolding connect_known file_all new_profile SsidKey_discrete Text_discrete Security_discrete
    ℕ_discrete as_bytes
connect_known_lem_example =
    connect_known_lem obeying (codes "home") none none supplicant [] supplicant-IsFiled refl

remove_known_network_lem_example :
    (key : SsidKey) × Names (codes "home") none key
    × ((n : KnownNetwork) × (profile key none supplicant.known_networks ≡ some n))
    × Sets key none none supplicant.known_networks
        (remove_known_network obeying (codes "home") none none supplicant []).1.known_networks
unfolding remove_known_network file_all new_profile SsidKey_discrete Text_discrete Security_discrete
    ℕ_discrete
remove_known_network_lem_example =
    remove_known_network_lem obeying (codes "home") none none supplicant [] refl

register_known_network_lem_example :
    Registers obeying
      (validate obeying psk (some (codes "password")) none)
      (new_profile (codes "home") none psk (some (codes "password")) none true false)
      supplicant
      []
      (register_known_network obeying (codes "home") none psk none none true false supplicant [])
unfolding file_all new_profile SsidKey_discrete Security_discrete ℕ_discrete keep_secret find_in
    entry_of
register_known_network_lem_example =
    register_known_network_lem obeying (codes "home") none psk none none true false supplicant []

abbrev near_ap : ScanResult
near_ap = record {
  freq = pos 2412;
  signal = negsuc 39;
  bssid = record { octets = 1 ∷ 2 ∷ 3 ∷ 4 ∷ 5 ∷ 6 ∷ [] };
  ssid = codes "home";
  security = psk;
  flags = parse_flags (λ s. s) (λ s. s) [];
}

abbrev entry : KnownSsidEntry
entry = record { no_bssid = none; by_bssid = (near_ap.bssid, home) ∷ [] }

find_best_lem_example :
    let best = find_best home_key entry (near_ap ∷ []) 0 none in
    Found home_key entry (near_ap ∷ []) best × BeatsAll home_key entry best (near_ap ∷ []) 0
find_best_lem_example = find_best_lem home_key entry (near_ap ∷ [])

-- A wpa_supplicant that answers ADD_NETWORK by 7 and all else by OK.
abbrev replies : Leaks.Log → List ℕ → Result (Unit {0}) (List ℕ)
replies log cmd = ok (if same_text cmd (codes "ADD_NETWORK") then codes "7" else codes "OK")

-- The address is set, but no password is there.
missing_secret_leaks_example :
    (e : Error (recorded (Unit {0}) replies)) × (add_and_configure_network
        (recorded (Unit {0}) replies)
        (codes "home")
        (some near_ap.bssid)
        psk
        none
        none
        false
        []
      ≡ (
        err e,
        codes "SET_NETWORK 7 bssid 01:02:03:04:05:06"
            ∷ codes "SET_NETWORK 7 ssid \"home\""
            ∷ codes "ADD_NETWORK"
            ∷ [],
      ))
unfolding same_text parse_i32 trim trim_reply print_command fmt quoted
missing_secret_leaks_example =
    missing_secret_leaks (Unit {0}) replies (pos 7) (codes "home") (some near_ap.bssid) psk none
      none false [] (codes "7") refl refl refl (λ log key value. refl)

-- A password that is too short: the network is removed.
add_and_configure_network_fails_example :
    let after =
      (add_and_configure_network obeying
        (codes "home")
        none
        psk
        (some (codes "short"))
        none
        false
        []).1 in
    ((t : Log) × (after ≡ (remove_network obeying (pos 7) t).1))
    ⊎ ((t : Log) × (enable_network obeying (pos 7) t ≡ (err (invalid_password_length 8 63), after)))
unfolding add_network add_and_configure_network as_bytes
add_and_configure_network_fails_example =
    add_and_configure_network_fails obeying (pos 7) (codes "home") none psk (some (codes "short"))
      none false [] (invalid_password_length 8 63) (λ e. cc) refl refl
