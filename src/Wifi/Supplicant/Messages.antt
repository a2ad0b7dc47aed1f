-- ===== src/Wifi/Supplicant/Messages.antt =====
-- The handler of the actions of network-daemon/src/wifi/wpa_supplicant/mod.rs.
use network_daemon.Prelude.{none, Bool, true, false, List, [], map, if◌then◌else◌, Result, ok, err}
use network_daemon.Wifi.Network.{KnownNetwork, ScanResult}
use network_daemon.Wifi.Status.{SupplicantStatus}
use network_daemon.Wifi.Events.{WpaEvent}
use network_daemon.Wifi.Commands.{parse_error}
use network_daemon.Wifi.Actions.{
  WiFiManagerAction, WiFiManagerResponse, scan_results_available, status_updated, success,
  event_receiver,
}
use network_daemon.Wifi.Control
use network_daemon.Wifi.Control.Links
use network_daemon.Wifi.Control.{Machine, Error, Call}
use network_daemon.Wifi.Supplicant.{WpaSupplicant, get_known_networks, load_known_networks}
use network_daemon.Wifi.Supplicant.Registry.{Outcome, register_known_network, remove_known_network}
use network_daemon.Wifi.Supplicant.Choice.{connect_known}

-- A known network without its password.
unfoldable pub without_password : KnownNetwork → KnownNetwork
without_password n = record n { password = none }

module _ {State : Type 0} (m : Machine State) where
  -- A call that leaves the state alone, answered by what its value becomes.
  unfoldable pub answer :
      {A : Type 0}
      → Result (Error m) A × State
      → (A → WiFiManagerResponse)
      → WpaSupplicant
      → Outcome m WiFiManagerResponse
  answer (r, s) f self = elim r [ ok a ↦ (ok (f a), self, s) | err e ↦ (err e, self, s) ]

  -- A method that is answered by Success.
  unfoldable pub succeed : Outcome m (Unit {0}) → Outcome m WiFiManagerResponse
  succeed (r, self, s) = elim r [ ok _ ↦ (ok success, self, s) | err e ↦ (err e, self, s) ]

  -- The first status is also told to the supervisor.
  unfoldable pub answer_status :
      Result (Error m) SupplicantStatus × State → WpaSupplicant → Outcome m WiFiManagerResponse
  answer_status (r, s) self = elim r [
    | err e ↦ (err e, self, s)
    | ok status ↦ if self.status_init then (ok (WiFiManagerResponse.status status), self, s) else (
      ok (WiFiManagerResponse.status status),
      record self { status_init = true },
      m.tell (status_updated self.iface status) s,
    )
  ]

  unfoldable pub tell_status : Result (Error m) SupplicantStatus × State → WpaSupplicant → State
  tell_status (r, s) self = elim r [
    | err _ ↦ s
    | ok status ↦ m.tell (status_updated self.iface status) s
  ]

  -- `unwrap_or_default` of the scan results.
  unfoldable pub take_results : Result (Error m) (List ScanResult) → List ScanResult
  take_results (ok results) = results
  take_results (err _) = []

  -- Whether an event changes the status.
  unfoldable pub changes_status : WpaEvent → Bool
  changes_status (WpaEvent.state_change old new) = true
  changes_status (WpaEvent.associated bssid) = true
  changes_status (WpaEvent.disconnected bssid reason) = true
  changes_status (WpaEvent.connected bssid) = true
  changes_status _ = false

  unfoldable pub is_scan_results : WpaEvent → Bool
  is_scan_results WpaEvent.scan_results = true
  is_scan_results _ = false

  unfoldable pub handle_wpa_event : WpaEvent → WpaSupplicant → State → Outcome m WiFiManagerResponse
  unfolding is_scan_results changes_status take_results tell_status Control.get_scan_results
      Links.get_status
  handle_wpa_event event self s =
      let (r, s') = Control.get_scan_results m s in
      if is_scan_results event
      then (
        ok success,
        record self { scan_results = take_results r },
        m.tell scan_results_available s',
      )
      else if changes_status event
      then (ok success, self, tell_status (Links.get_status m s) self)
      else (ok success, self, s)

  unfoldable pub handle_subscribe : WpaSupplicant → State → Outcome m WiFiManagerResponse
  handle_subscribe self s =
      let (r, s') = m.ask_subscribe s in
      elim r [
        | ok receiver ↦ (ok (event_receiver receiver), self, s')
        | err text ↦ (err (parse_error text), self, s')
      ]

  unfoldable pub handle : WiFiManagerAction → WpaSupplicant → State → Outcome m WiFiManagerResponse
  unfolding answer succeed answer_status handle_wpa_event handle_subscribe without_password
      get_known_networks load_known_networks register_known_network remove_known_network
      connect_known Control.scan Links.get_status Links.disconnect Links.reconnect
  handle WiFiManagerAction.scan self s = answer (Control.scan m s) (λ _. success) self
  handle WiFiManagerAction.scan_results self s =
      (ok (WiFiManagerResponse.scan_results self.scan_results), self, s)
  handle WiFiManagerAction.known_networks self s = (
    ok (WiFiManagerResponse.known_networks (map without_password (get_known_networks self))),
    self,
    s,
  )
  handle WiFiManagerAction.status self s = answer_status (Links.get_status m s) self
  handle (WiFiManagerAction.add_network ssid bssid security password identity hidden autoconnect)
        self s =
      succeed
        (register_known_network m ssid bssid security password identity hidden autoconnect self s)
  handle (WiFiManagerAction.remove_network ssid bssid security) self s =
      succeed (remove_known_network m ssid bssid security self s)
  handle (WiFiManagerAction.connect ssid bssid security) self s =
      succeed (connect_known m ssid security bssid self s)
  handle WiFiManagerAction.disconnect self s = answer (Links.disconnect m s) (λ _. success) self
  handle WiFiManagerAction.reconnect self s = answer (Links.reconnect m s) (λ _. success) self
  handle WiFiManagerAction.subscribe_events self s = handle_subscribe self s
  handle (WiFiManagerAction.load_networks networks) self s =
      (ok success, load_known_networks networks self, s)
  handle (WiFiManagerAction.wpa_event event) self s = handle_wpa_event event self s
