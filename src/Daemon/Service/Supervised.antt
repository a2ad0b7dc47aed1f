-- ===== src/Daemon/Service/Supervised.antt =====
-- Which interfaces have a WiFi manager and a DHCP manager, after the events that the service of
-- network-daemon/src/daemon/service.rs has handled.
use Prim.Native.String.{String}
use network_daemon.Prelude.{
  ◌≡◌, refl, inl, inr, ap, ◌∙◌, Option, none, some, Bool, true, false, ◌||◌, ◌&&◌, List, [], ◌∷◌,
  if◌then◌else◌, ◌===◌, string_key, arith, Option-cases,
}
use network_daemon.Prelude.Map
use network_daemon.Interface.Info.{
  ConnectionState, up, connected, disconnected, no_carrier, disabled, not_applicable, unmanaged,
  ConnectionState_key, ConnectionState_discrete, InterfaceInfo, is_wlan, InterfaceManagerEvent,
  interface_added, interface_removed, interface_changed,
}
use network_daemon.Daemon.Service.{
  Actors, Self, started, is_up_or_connected, load_persisted_networks, start_wifi, start_dhcp,
  stop_wifi_of, stop_dhcp_of, handle_added, handle_changed, handle_interface_event,
}

abbrev pub is_some {ℓ} : {A : Type ℓ} → Option A → Bool
is_some none = false
is_some (some a) = true

-- Whether the interface of a name has a WiFi manager after an event, from whether it had one.
unfoldable pub wifi_after : String → Bool → InterfaceManagerEvent → Bool
wifi_after name had (interface_added info) =
    if is_wlan info then (if info.name === name then true else had) else had
wifi_after name had (interface_removed info) =
    if is_wlan info then (if info.name === name then false else had) else had
wifi_after name had (interface_changed info) = had

-- The states in which an interface with DHCP keeps a DHCP manager.
abbrev pub wants_dhcp : ConnectionState → Bool
wants_dhcp up = true
wants_dhcp connected = true
wants_dhcp disconnected = false
wants_dhcp no_carrier = false
wants_dhcp disabled = false
wants_dhcp not_applicable = false
wants_dhcp unmanaged = false

is_up_or_connected-wants_dhcp : (s : ConnectionState) → is_up_or_connected s ≡ wants_dhcp s
unfolding is_up_or_connected ConnectionState_discrete
is_up_or_connected-wants_dhcp up = refl
is_up_or_connected-wants_dhcp connected = refl
is_up_or_connected-wants_dhcp disconnected = refl
is_up_or_connected-wants_dhcp no_carrier = refl
is_up_or_connected-wants_dhcp disabled = refl
is_up_or_connected-wants_dhcp not_applicable = refl
is_up_or_connected-wants_dhcp unmanaged = refl

-- The same as `wifi_after` for a DHCP manager.
unfoldable pub dhcp_after : String → Bool → InterfaceManagerEvent → Bool
dhcp_after name had (interface_added info) =
    if info.name === name
    then had || (info.dhcpv4_enabled && info.state === up && is_some info.mac_addr)
    else had
dhcp_after name had (interface_removed info) = had
dhcp_after name had (interface_changed info) =
    if info.name === name
    then info.dhcpv4_enabled && wants_dhcp info.state && (had || is_some info.mac_addr)
    else had

unfoldable pub after_all :
    (Bool → InterfaceManagerEvent → Bool) → Bool → List InterfaceManagerEvent → Bool
after_all after had [] = had
after_all after had (event ∷ events) = after_all after (after had event) events

-- The last addition or removal of a WLAN interface of a name, after one from before.
unfoldable pub last_link :
    String
    → Option InterfaceManagerEvent
    → List InterfaceManagerEvent
    → Option InterfaceManagerEvent
last_link name before [] = before
last_link name before (interface_added info ∷ events) =
    last_link name
      (if is_wlan info && info.name === name then some (interface_added info) else before) events
last_link name before (interface_removed info ∷ events) =
    last_link name
      (if is_wlan info && info.name === name then some (interface_removed info) else before) events
last_link name before (interface_changed info ∷ events) = last_link name before events

abbrev pub is_addition : Option InterfaceManagerEvent → Bool
is_addition none = false
is_addition (some (interface_added info)) = true
is_addition (some (interface_removed info)) = false
is_addition (some (interface_changed info)) = false

after_all-last_link :
    (name : String) (before : Option InterfaceManagerEvent) (events : List InterfaceManagerEvent)
    → after_all (wifi_after name) (is_addition before) events
      ≡ is_addition (last_link name before events)
unfolding after_all last_link wifi_after
after_all-last_link name before [] = refl
after_all-last_link name before (interface_added info ∷ events) =
    ap (λ b. after_all (wifi_after name) b events) (ground arith)
    ∙ after_all-last_link name
        (if is_wlan info && info.name === name then some (interface_added info) else before) events
after_all-last_link name before (interface_removed info ∷ events) =
    ap (λ b. after_all (wifi_after name) b events) (ground arith)
    ∙ after_all-last_link name
        (if is_wlan info && info.name === name then some (interface_removed info) else before)
        events
after_all-last_link name before (interface_changed info ∷ events) =
    after_all-last_link name before events

module _ {State : Type 0} (api : Actors State) where
  -- Whether the interface of a name has a manager of each kind.
  abbrev pub has_wifi : String → Self api × State → Bool
  has_wifi name start = is_some (Map.get name start.0.wifi_supervisors)

  abbrev pub has_dhcp : String → Self api × State → Bool
  has_dhcp name start = is_some (Map.get name start.0.dhcp_supervisors)

  -- The events are handled in their order.
  unfoldable pub handle_all : List InterfaceManagerEvent → Self api × State → Self api × State
  unfolding handle_interface_event
  handle_all [] start = start
  handle_all (event ∷ events) start = handle_all events (handle_interface_event api event start)

  start_wifi-has_wifi :
      (name : String) (info : InterfaceInfo) (start : Self api × State)
      → has_wifi name (start_wifi api info start)
        ≡ (if info.name === name then true else has_wifi name start)
  unfolding start_wifi load_persisted_networks
  start_wifi-has_wifi name info (self, s) =
      let (wifi_ref, s') = api.spawn_wifi info.name s in
      ground (arith, Map.get-insert name info.name wifi_ref self.wifi_supervisors)

  start_dhcp-has_wifi :
      (name : String) (info : InterfaceInfo) (start : Self api × State)
      → has_wifi name (start_dhcp api info start) ≡ has_wifi name start
  unfolding start_dhcp
  start_dhcp-has_wifi name info (self, s) = ground arith

  stop_wifi-has_wifi :
      (name : String) (info : InterfaceInfo) (start : Self api × State)
      → has_wifi name (stop_wifi_of api info start)
        ≡ (if info.name === name then false else has_wifi name start)
  unfolding stop_wifi_of
  stop_wifi-has_wifi name info (self, s) =
      ground (arith, Map.get-remove name info.name self.wifi_supervisors)

  stop_dhcp-has_wifi :
      (name : String) (info : InterfaceInfo) (start : Self api × State)
      → has_wifi name (stop_dhcp_of api info start) ≡ has_wifi name start
  unfolding stop_dhcp_of
  stop_dhcp-has_wifi name info (self, s) = ground arith

  start_dhcp-has_dhcp :
      (name : String) (info : InterfaceInfo) (start : Self api × State)
      → has_dhcp name (start_dhcp api info start) ≡ (
          if info.name === name
          then has_dhcp name start || is_some info.mac_addr
          else has_dhcp name start)
  unfolding start_dhcp
  start_dhcp-has_dhcp name info (self, s) = elim (Option-cases info.mac_addr) [
    | inl none_there ↦ ground (arith, none_there)
    | inr (mac, there) ↦
        let dhcp_ref = (api.spawn_dhcp info.name mac s).0 in
        ground (arith, there, Map.get-insert name info.name dhcp_ref self.dhcp_supervisors)
  ]

  stop_dhcp-has_dhcp :
      (name : String) (info : InterfaceInfo) (start : Self api × State)
      → has_dhcp name (stop_dhcp_of api info start)
        ≡ (if info.name === name then false else has_dhcp name start)
  unfolding stop_dhcp_of
  stop_dhcp-has_dhcp name info (self, s) =
      ground (arith, Map.get-remove name info.name self.dhcp_supervisors)

  handle_added-has_wifi :
      (name : String) (info : InterfaceInfo) (start : Self api × State)
      → has_wifi name (handle_added api info start)
        ≡ wifi_after name (has_wifi name start) (interface_added info)
  unfolding handle_added wifi_after
  handle_added-has_wifi name info start =
      let with_wifi = start_wifi api info start in
      ground (
        arith,
        start_wifi-has_wifi name info start,
        start_dhcp-has_wifi name info with_wifi,
        start_dhcp-has_wifi name info start,
      )

  start_wifi-has_dhcp :
      (name : String) (info : InterfaceInfo) (start : Self api × State)
      → has_dhcp name (start_wifi api info start) ≡ has_dhcp name start
  unfolding start_wifi load_persisted_networks
  start_wifi-has_dhcp name info (self, s) = refl

  stop_wifi-has_dhcp :
      (name : String) (info : InterfaceInfo) (start : Self api × State)
      → has_dhcp name (stop_wifi_of api info start) ≡ has_dhcp name start
  unfolding stop_wifi_of
  stop_wifi-has_dhcp name info (self, s) = ground arith

  handle_added-has_dhcp :
      (name : String) (info : InterfaceInfo) (start : Self api × State)
      → has_dhcp name (handle_added api info start)
        ≡ dhcp_after name (has_dhcp name start) (interface_added info)
  unfolding handle_added dhcp_after
  handle_added-has_dhcp name info start =
      let with_wifi = start_wifi api info start in
      ground (
        arith,
        start_wifi-has_dhcp name info start,
        start_dhcp-has_dhcp name info with_wifi,
        start_dhcp-has_dhcp name info start,
      )

  -- Each event changes for each name which managers it has as `wifi_after` and `dhcp_after` say.
  handle_interface_event-has_wifi :
      (name : String) (event : InterfaceManagerEvent) (start : Self api × State)
      → has_wifi name (handle_interface_event api event start)
        ≡ wifi_after name (has_wifi name start) event
  unfolding handle_interface_event handle_changed wifi_after
  handle_interface_event-has_wifi name (interface_added info) start =
      handle_added-has_wifi name info start
  handle_interface_event-has_wifi name (interface_removed info) start =
      ground (arith, stop_wifi-has_wifi name info start)
  handle_interface_event-has_wifi name (interface_changed info) start =
      ground (arith, stop_dhcp-has_wifi name info start, start_dhcp-has_wifi name info start)

  handle_interface_event-has_dhcp :
      (name : String) (event : InterfaceManagerEvent) (start : Self api × State)
      → has_dhcp name (handle_interface_event api event start)
        ≡ dhcp_after name (has_dhcp name start) event
  unfolding handle_interface_event handle_changed dhcp_after
  handle_interface_event-has_dhcp name (interface_added info) start =
      handle_added-has_dhcp name info start
  handle_interface_event-has_dhcp name (interface_removed info) start =
      ground (arith, stop_wifi-has_dhcp name info start)
  handle_interface_event-has_dhcp name (interface_changed info) start = ground (
    arith,
    is_up_or_connected-wants_dhcp info.state,
    stop_dhcp-has_dhcp name info start,
    start_dhcp-has_dhcp name info start,
  )

  handle_all-after_all :
      (name : String) (events : List InterfaceManagerEvent) (start : Self api × State)
      → (has_wifi name (handle_all events start)
          ≡ after_all (wifi_after name) (has_wifi name start) events)
        × (has_dhcp name (handle_all events start)
            ≡ after_all (dhcp_after name) (has_dhcp name start) events)
  unfolding handle_all after_all
  handle_all-after_all name [] start = (refl, refl)
  handle_all-after_all name (event ∷ events) start =
      let (wifi, dhcp) =
        handle_all-after_all name events (handle_interface_event api event start) in
      (
        wifi
            ∙ ap (λ b. after_all (wifi_after name) b events)
                (handle_interface_event-has_wifi name event start),
        dhcp
            ∙ ap (λ b. after_all (dhcp_after name) b events)
                (handle_interface_event-has_dhcp name event start),
      )

  -- After any events from the start of the service, a name has a WiFi manager if and only if the last
  -- addition or removal of a WLAN interface of this name is an addition. And it has a DHCP manager as the
  -- events about the name say in their order: one is started by an addition in the state up, and by a
  -- change in the state up or connected, with DHCP and a MAC address, where there is none; one is ended by
  -- a change without DHCP or in another state; all else, a removal too, leaves it as it was.
  pub handle_all_lem :
      (name : String) (events : List InterfaceManagerEvent) (s : State)
      → (has_wifi name (handle_all events (started api, s))
          ≡ is_addition (last_link name none events))
        × (has_dhcp name (handle_all events (started api, s))
            ≡ after_all (dhcp_after name) false events)
  unfolding Map.get
  handle_all_lem name events s =
      let (wifi, dhcp) = handle_all-after_all name events (started api, s) in
      (wifi ∙ after_all-last_link name none events, dhcp)

  start_dhcp_keeps :
      (info : InterfaceInfo) (start : Self api × State) (d : api.DhcpRef)
      → Map.get info.name start.0.dhcp_supervisors ≡ some d
      → Map.get info.name (start_dhcp api info start).0.dhcp_supervisors ≡ some d
  unfolding start_dhcp
  start_dhcp_keeps info (self, s) d h = ground (arith, h)

  handle_added_keeps :
      (info : InterfaceInfo) (start : Self api × State) (d : api.DhcpRef)
      → Map.get info.name start.0.dhcp_supervisors ≡ some d
      → Map.get info.name (handle_added api info start).0.dhcp_supervisors ≡ some d
  unfolding handle_added start_wifi load_persisted_networks
  handle_added_keeps info (self, s) d h =
      let with_wifi = start_wifi api info (self, s) in
      ground (arith, h, start_dhcp_keeps info with_wifi d h, start_dhcp_keeps info (self, s) d h)

  removal_keeps :
      (info : InterfaceInfo) (name : String) (start : Self api × State)
      → Map.get name (handle_interface_event api (interface_removed info) start).0.dhcp_supervisors
        ≡ Map.get name start.0.dhcp_supervisors
  unfolding handle_interface_event stop_wifi_of
  removal_keeps info name (self, s) = ground arith

  -- An interface that has a DHCP manager when it is removed still has this very one after it is added
  -- again, with whatever MAC address.
  pub removed_keeps_dhcp :
      (info again : InterfaceInfo) (start : Self api × State) (d : api.DhcpRef)
      → info.name ≡ again.name
      → Map.get info.name start.0.dhcp_supervisors ≡ some d
      → Map.get again.name
          (handle_all
            (interface_removed info ∷ interface_added again ∷ [])
            start).0.dhcp_supervisors
        ≡ some d
  unfolding handle_all handle_interface_event
  removed_keeps_dhcp info again start d same there =
      let removed = handle_interface_event api (interface_removed info) start in
      let kept = removal_keeps info again.name start in
      handle_added_keeps again removed d (kept ∙ rw same at there)
