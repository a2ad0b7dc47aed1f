-- ===== src/Daemon/Tests.antt =====
-- network-daemon/src/daemon/service.rs with one saved network, and actors that are numbered in the order
-- in which they are made. The state is the number of the next one.
use network_daemon.Prelude.{
  ℕ, ◌+◌, ◌≡◌, refl, ◌↔◌, none, some, true, false, List, [], ◌∷◌, ok, In, ℕ_discrete,
  String_discrete, Option_discrete, string_key,
}
use network_daemon.Prelude.Map
use network_daemon.Prelude.Int.{pos}
use network_daemon.Prelude.Search.{codes}
use network_daemon.Interface.Info.{
  up, wlan, ConnectionState_discrete, InterfaceType_discrete, InterfaceInfo, new,
  InterfaceManagerEvent, interface_added, interface_changed, interface_removed,
}
use network_daemon.Config.{NetworkConfig, DaemonConfig}
use network_daemon.Storage.{Credential}
use network_daemon.Wifi.Security.{psk}
use network_daemon.Wifi.Network.{KnownNetwork, enabled}
use network_daemon.Wifi.Supplicant.{Text_discrete}
use network_daemon.Daemon.Profiles.{ProfileKey_discrete, persisted_networks}
use network_daemon.Daemon.Profiles.Loaded.{expected, key_of, persisted_networks_lem}
use network_daemon.Daemon.Service.{Actors, NetworkDaemon, started}
use network_daemon.Daemon.Service.Supervised.{
  last_link, is_addition, dhcp_after, after_all, has_wifi, has_dhcp, handle_all, handle_all_lem,
  removed_keeps_dhcp,
}

abbrev entry : NetworkConfig
entry = record {
  ssid = "home";
  interface_mac = some "02:00:00:00:00:01";
  bssid = none;
  security = "PSK";
  hidden = true;
  priority = 5;
  enabled = true;
}

abbrev settings : DaemonConfig
settings = record { networks = entry ∷ []; interfaces = [] }

-- The second one is of another interface.
abbrev saved : List Credential
saved =
    record {
      interface_mac = some "02:00:00:00:00:01";
      ssid = "home";
      bssid = none;
      security = "PSK";
      psk = some "secret12";
      identity = none;
    }
    ∷ record {
      interface_mac = some "02:00:00:00:00:02";
      ssid = "work";
      bssid = none;
      security = "PSK";
      psk = some "secret34";
      identity = none;
    }
    ∷ []

-- The number of the MAC address 02:00:00:00:00:01.
abbrev mac : ℕ
mac = 2199023255553

abbrev home : KnownNetwork
home = record {
  id = none;
  priority = pos 5;
  hidden = true;
  security = psk;
  state = enabled;
  ssid = codes "home";
  bssid = none;
  password = some (codes "secret12");
  identity = none;
  autoconnect = true;
}

loads_home : persisted_networks settings saved (some mac) ≡ home ∷ []
unfolding persisted_networks Option_discrete Text_discrete ℕ_discrete ProfileKey_discrete
loads_home = refl

abbrev actors : Actors ℕ
actors = record {
  WifiRef = ℕ;
  DhcpRef = ℕ;
  spawn_wifi = λ name s. (s, s + 1);
  spawn_dhcp = λ name mac s. (s, s + 1);
  load_networks = λ w networks s. s;
  stop_wifi = λ w s. (true, s);
  kill_wifi = λ w s. s;
  stop_dhcp = λ d s. (true, s);
  kill_dhcp = λ d s. s;
  credentials = λ s. (some saved, s);
  load_config = λ s. ok settings;
}

abbrev wlan0 : InterfaceInfo
wlan0 = record (new 1 "wlan0") { interface_type = wlan; state = up; mac_addr = some mac }

-- The same name with another MAC address.
abbrev wlan0_again : InterfaceInfo
wlan0_again = record wlan0 { mac_addr = some (mac + 1) }

abbrev events : List InterfaceManagerEvent
events = interface_added wlan0 ∷ interface_changed wlan0 ∷ interface_removed wlan0 ∷ []

leaves_dhcp :
    (handle_all actors events (started actors, 0)).0
    ≡ record { wifi_supervisors = []; dhcp_supervisors = ("wlan0", 1) ∷ [] }
unfolding handle_all String_discrete ConnectionState_discrete InterfaceType_discrete
leaves_dhcp = refl

persisted_networks_lem_example :
    In home (persisted_networks settings saved (some mac))
    ↔ (expected settings saved (some mac) (key_of home) ≡ some home)
persisted_networks_lem_example = persisted_networks_lem settings saved (some mac) home

handle_all_lem_example :
    (has_wifi actors "wlan0" (handle_all actors events (started actors, 0))
      ≡ is_addition (last_link "wlan0" none events))
    × (has_dhcp actors "wlan0" (handle_all actors events (started actors, 0))
        ≡ after_all (dhcp_after "wlan0") false events)
handle_all_lem_example = handle_all_lem actors "wlan0" events 0

abbrev running : NetworkDaemon ℕ ℕ
running = record { wifi_supervisors = []; dhcp_supervisors = ("wlan0", 1) ∷ [] }

removed_keeps_dhcp_example :
    Map.get "wlan0"
      (handle_all actors
        (interface_removed wlan0 ∷ interface_added wlan0_again ∷ [])
        (running, 2)).0.dhcp_supervisors
    ≡ some 1
unfolding Map.get String_discrete
removed_keeps_dhcp_example = removed_keeps_dhcp actors wlan0 wlan0_again (running, 2) 1 refl refl
