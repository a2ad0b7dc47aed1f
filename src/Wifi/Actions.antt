-- ===== src/Wifi/Actions.antt =====
-- libnetwork-daemon/src/wifi/mod.rs: the actions on a WiFi manager, their answers, and its events.
use network_daemon.Prelude.{ℕ, Option, Bool, List}
use network_daemon.Mac.{MacAddr}
use network_daemon.Wifi.Security.{Security}
use network_daemon.Wifi.Network.{KnownNetwork, ScanResult}
use network_daemon.Wifi.Status.{SupplicantStatus}
use network_daemon.Wifi.Events.{WpaEvent}

pub data WiFiManagerEvent : Type 0 where
  scan_results_available : WiFiManagerEvent
  status_updated : List ℕ → SupplicantStatus → WiFiManagerEvent

pub data WiFiManagerAction : Type 0 where
  scan scan_results known_networks status : WiFiManagerAction
  add_network :
      List ℕ
      → Option MacAddr
      → Security
      → Option (List ℕ)
      → Option (List ℕ)
      → Bool
      → Bool
      → WiFiManagerAction
  remove_network : List ℕ → Option MacAddr → Option Security → WiFiManagerAction
  connect : List ℕ → Option MacAddr → Option Security → WiFiManagerAction
  disconnect reconnect subscribe_events : WiFiManagerAction
  load_networks : List KnownNetwork → WiFiManagerAction
  wpa_event : WpaEvent → WiFiManagerAction

pub data WiFiManagerResponse : Type 0 where
  scan_results : List ScanResult → WiFiManagerResponse
  known_networks : List KnownNetwork → WiFiManagerResponse
  status : SupplicantStatus → WiFiManagerResponse
  success : WiFiManagerResponse
  event_receiver : ℕ → WiFiManagerResponse
