-- ===== src/Daemon/Service.antt =====
-- network-daemon/src/daemon/service.rs: the supervisors of the interfaces, and the handlers of the service.
-- The actors, the storage and the file of the settings are other code's: what is used of them is the
-- record here.
pub mod Supervised
use Prim.Native.String.{String}
use network_daemon.Prelude.{
  ℕ, Option, none, some, Bool, true, false, not, ◌||◌, ◌&&◌, List, [], if◌then◌else◌, Result, ok,
  err, ◌===◌, string_key,
}
use network_daemon.Prelude.Map
use network_daemon.Interface.Info.{
  ConnectionState, up, connected, no_carrier, disabled, not_applicable, ConnectionState_key,
  InterfaceInfo, is_wlan, InterfaceManagerEvent, interface_added, interface_removed,
  interface_changed,
}
use network_daemon.Config.{DaemonConfig, default_config, ConfigError}
use network_daemon.Storage.{Credential}
use network_daemon.Wifi.Network.{KnownNetwork}
use network_daemon.Wifi.Status.{
  WpaState, completed, disconnected, scanning, inactive, interface_disabled, unknown, associating,
  associated, authenticating, four_way_handshake, group_handshake, SupplicantStatus,
}
use network_daemon.Wifi.Actions.{WiFiManagerEvent, scan_results_available, status_updated}
use network_daemon.Daemon.Profiles.{persisted_networks}

-- `spawn_wifi` makes a WiFi manager with its stream of events, `spawn_dhcp` a DHCP manager; the stops
-- say whether they succeed, and the answer to LoadNetworks is not looked at. `credentials` is what the
-- storage answers, if it does.
pub record Actors (State : Type 0) : Type 1 where
  pub WifiRef : Type 0
  pub DhcpRef : Type 0
  pub spawn_wifi : String → State → WifiRef × State
  pub spawn_dhcp : String → ℕ → State → DhcpRef × State
  pub load_networks : WifiRef → List KnownNetwork → State → State
  pub stop_wifi : WifiRef → State → Bool × State
  pub kill_wifi : WifiRef → State → State
  pub stop_dhcp : DhcpRef → State → Bool × State
  pub kill_dhcp : DhcpRef → State → State
  pub credentials : State → Option (List Credential) × State
  pub load_config : State → Result ConfigError DaemonConfig

pub record NetworkDaemon (WifiRef DhcpRef : Type 0) : Type 0 where
  pub wifi_supervisors : List (String × WifiRef)
  pub dhcp_supervisors : List (String × DhcpRef)

-- The state that a WiFi status is told to the interface manager as, if it is.
unfoldable pub state_of : Option WpaState → Option ConnectionState
state_of none = none
state_of (some interface_disabled) = some disabled
state_of (some unknown) = some not_applicable
state_of (some completed) = some connected
state_of (some disconnected) = some no_carrier
state_of (some inactive) = some no_carrier
state_of (some scanning) = some no_carrier
state_of (some associating) = some up
state_of (some associated) = some up
state_of (some authenticating) = some up
state_of (some four_way_handshake) = some up
state_of (some group_handshake) = some up

-- UpdateExternalInterfaceState, which is told to the interface manager: the name and the state.
unfoldable pub handle_wifi : WiFiManagerEvent → Option (List ℕ × ConnectionState)
unfolding state_of
handle_wifi scan_results_available = none
handle_wifi (status_updated iface status) = elim (state_of status.state) [
  | none ↦ none
  | some state ↦ some (iface, state)
]

-- Whether a DHCP manager is kept or started for an interface that has changed.
unfoldable pub is_up_or_connected : ConnectionState → Bool
is_up_or_connected state = state === up || state === connected

module _ {State : Type 0} (api : Actors State) where
  abbrev pub Self : Type 0
  Self = NetworkDaemon api.WifiRef api.DhcpRef

  -- The maps at the start of the service.
  abbrev pub started : Self
  started = record { wifi_supervisors = []; dhcp_supervisors = [] }

  unfoldable pub load_persisted_networks : Option ℕ → State → List KnownNetwork × State
  unfolding persisted_networks
  load_persisted_networks interface_mac s =
      let (answer, s') = api.credentials s in
      let credentials : List Credential = elim answer [
        | none ↦ []
        | some credentials ↦ credentials
      ] in
      let config : DaemonConfig = elim (api.load_config s') [
        | ok config ↦ config
        | err _ ↦ default_config
      ] in
      (persisted_networks config credentials interface_mac, s')

  -- A new WiFi manager, with the networks that were saved for the interface.
  unfoldable pub start_wifi : InterfaceInfo → Self × State → Self × State
  unfolding load_persisted_networks Map.insert
  start_wifi info (self, s) =
      let (wifi_ref, s') = api.spawn_wifi info.name s in
      let (networks, s'') = load_persisted_networks info.mac_addr s' in
      (
        record self { wifi_supervisors = Map.insert info.name wifi_ref self.wifi_supervisors },
        api.load_networks wifi_ref networks s'',
      )

  -- A new DHCP manager, if the interface has none and has a MAC address.
  unfoldable pub start_dhcp : InterfaceInfo → Self × State → Self × State
  unfolding Map.get Map.insert
  start_dhcp info (self, s) = elim (Map.get info.name self.dhcp_supervisors) [
    | some _ ↦ (self, s)
    | none ↦ elim info.mac_addr [
      | none ↦ (self, s)
      | some mac ↦
          let (dhcp_ref, s') = api.spawn_dhcp info.name mac s in
          (
            record self { dhcp_supervisors = Map.insert info.name dhcp_ref self.dhcp_supervisors },
            s',
          )
    ]
  ]

  unfoldable pub stop_wifi_of : InterfaceInfo → Self × State → Self × State
  unfolding Map.get Map.remove
  stop_wifi_of info (self, s) = elim (Map.get info.name self.wifi_supervisors) [
    | none ↦ (self, s)
    | some w ↦
        let (stopped, s') = api.stop_wifi w s in
        (
          record self { wifi_supervisors = Map.remove info.name self.wifi_supervisors },
          if stopped then s' else api.kill_wifi w s',
        )
  ]

  unfoldable pub stop_dhcp_of : InterfaceInfo → Self × State → Self × State
  unfolding Map.get Map.remove
  stop_dhcp_of info (self, s) = elim (Map.get info.name self.dhcp_supervisors) [
    | none ↦ (self, s)
    | some d ↦
        let (stopped, s') = api.stop_dhcp d s in
        (
          record self { dhcp_supervisors = Map.remove info.name self.dhcp_supervisors },
          if stopped then s' else api.kill_dhcp d s',
        )
  ]

  unfoldable pub handle_added : InterfaceInfo → Self × State → Self × State
  unfolding is_wlan start_wifi start_dhcp
  handle_added info start =
      let with_wifi = if is_wlan info then start_wifi info start else start in
      if info.dhcpv4_enabled && info.state === up then start_dhcp info with_wifi else with_wifi

  unfoldable pub handle_changed : InterfaceInfo → Self × State → Self × State
  unfolding start_dhcp stop_dhcp_of is_up_or_connected
  handle_changed info start =
      if not info.dhcpv4_enabled
      then stop_dhcp_of info start
      else if not (is_up_or_connected info.state)
      then stop_dhcp_of info start
      else start_dhcp info start

  -- The handler of the interface manager's events.
  unfoldable pub handle_interface_event : InterfaceManagerEvent → Self × State → Self × State
  unfolding handle_added handle_changed is_wlan stop_wifi_of
  handle_interface_event (interface_added info) start = handle_added info start
  handle_interface_event (interface_removed info) start =
      if is_wlan info then stop_wifi_of info start else start
  handle_interface_event (interface_changed info) start = handle_changed info start
