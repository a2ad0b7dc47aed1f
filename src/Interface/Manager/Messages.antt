-- ===== src/Interface/Manager/Messages.antt =====
-- network-daemon/src/interface/mod.rs: the handlers of the actor's messages, the requests to the manager
-- and the messages of the kernel.
pub mod Invariant
pub mod Events
use network_daemon.Prelude.{
  ℕ, Option, none, some, List, Bool, true, false, ◌||◌, Result, ok, err, [], ◌∷◌, if◌then◌else◌,
}
use network_daemon.Interface.Info.{
  InterfaceInfo, InterfaceManagerEvent, interface_added, interface_removed, interface_changed,
  ConnectionState,
}
use network_daemon.Interface.Machine.{Machine}
use network_daemon.Interface.Table
use network_daemon.Interface.Manager.{
  InterfaceManager, Action, Error, ifconfig, not_found, get_interface, get_interface_by_index,
  subscribe, lift, pure, gets, modify, or_raise, ◌>>=◌, ◌>>◌,
}
use network_daemon.Interface.Manager.Refresh.{refresh_interfaces}
use network_daemon.Interface.Manager.Actions.{
  InterfaceManagerAction, force_refresh, get_interface_info, update_interface_info,
  update_external_interface_state, mark_as_unmanaged, get_all_interfaces, get_interfaces_by_type,
  get_interfaces_by_parent, get_interfaces_by_state, get_wireless_devices, subscribe_events,
  add_link, del_link, mod_link, dhcp_v4_set, InterfaceResponse, success, single_info, info_list,
  wireless_devices, event_receiver, handle_add_link, handle_del_link,
}
use network_daemon.Interface.Manager.Handler.{
  Step, handle_mod_link, handle_dhcp_v4_set, handle_update, handle_state,
}
use network_daemon.Route.Manager.{StreamMessage}

-- A message of the kernel about a link: its index, and whether it has the flag `Dying`.
pub data RouteNetlinkMessage : Type 0 where
  del_link_message : ℕ → RouteNetlinkMessage
  new_link_message : ℕ → Bool → RouteNetlinkMessage
  del_address_message : ℕ → RouteNetlinkMessage
  new_address_message : ℕ → RouteNetlinkMessage
  unhandled : RouteNetlinkMessage

-- What a message of the stream carries: `Err` is a message that could not be decoded.
pub data NetlinkPayload : Type 0 where
  inner_message : RouteNetlinkMessage → NetlinkPayload
  error_payload no_payload decode_error : NetlinkPayload

unfoldable pub is_none {ℓ} : {A : Type ℓ} → Option A → Bool
is_none none = true
is_none (some _) = false

-- The event of a `NewLink`: by `dying`, the interface of the table and that of the kernel.
unfoldable pub link_event :
    Bool → Option InterfaceInfo → Option InterfaceInfo → Option InterfaceManagerEvent
link_event true (some cached) _ = some (interface_removed cached)
link_event true none _ = none
link_event false (some _) (some iface) = some (interface_changed iface)
link_event false none (some iface) = some (interface_added iface)
link_event false _ none = none

unfoldable pub address_event : Option InterfaceInfo → Option InterfaceManagerEvent
address_event none = none
address_event (some iface) = some (interface_changed iface)

module _ (m : Machine) where
  unfoldable pub handle : InterfaceManagerAction → Step m InterfaceResponse
  unfolding handle_add_link handle_del_link handle_mod_link handle_dhcp_v4_set handle_update
      handle_state refresh_interfaces subscribe
  handle (add_link name kind options) = handle_add_link m name kind options
  handle (del_link name) = handle_del_link m name
  handle (mod_link name ipv4 ipv6 oper_state slaac dhcpv4) =
      handle_mod_link m name ipv4 ipv6 oper_state slaac dhcpv4
  handle (dhcp_v4_set name old_lease new_lease) = handle_dhcp_v4_set m name old_lease new_lease
  handle force_refresh = refresh_interfaces m >> pure success
  handle (get_interface_info name) = do
    found ← gets (λ self. get_interface self name)
    info ← or_raise found (not_found name)
    pure (single_info info)
  handle (update_interface_info event) = handle_update m event
  handle (update_external_interface_state name state) = handle_state m name state
  handle (mark_as_unmanaged name) = handle_state m name ConnectionState.unmanaged
  handle get_all_interfaces = gets (λ self. info_list (Table.all self.table))
  handle (get_interfaces_by_type interface_type) =
      gets (λ self. info_list (Table.list_by_type self.table interface_type))
  handle (get_interfaces_by_parent parent) =
      gets (λ self. info_list (Table.list_by_parent self.table parent))
  handle (get_interfaces_by_state state) =
      gets (λ self. info_list (Table.list_by_state self.table state))
  handle get_wireless_devices = do
    devices ← lift ifconfig m.wireless_devices
    pure (wireless_devices devices)
  handle subscribe_events =
      λ self s. let (self', receiver) = subscribe self in (ok (event_receiver receiver), self', s)

  -- The event of a message, with the kernel asked about the interface.
  unfoldable pub event_of :
      InterfaceManager → RouteNetlinkMessage → m.State → Option InterfaceManagerEvent × m.State
  unfolding link_event address_event is_none get_interface_by_index
  event_of self (del_link_message index) s = elim (get_interface_by_index self index) [
    | none ↦ (none, s)
    | some iface ↦ (some (interface_removed iface), s)
  ]
  event_of self (new_link_message index flag) s =
      let (r, s') = m.query_link index s in
      elim r [
        | err _ ↦ (none, s')
        | ok iface ↦
            (link_event (is_none iface || flag) (get_interface_by_index self index) iface, s')
      ]
  event_of self (del_address_message index) s =
      let (r, s') = m.query_link index s in
      elim r [ err _ ↦ (none, s') | ok iface ↦ (address_event iface, s') ]
  event_of self (new_address_message index) s =
      let (r, s') = m.query_link index s in
      elim r [ err _ ↦ (none, s') | ok iface ↦ (address_event iface, s') ]
  event_of self unhandled s = (none, s)

  unfoldable pub payload_event :
      InterfaceManager → NetlinkPayload → m.State → Option InterfaceManagerEvent × m.State
  unfolding event_of
  payload_event self (inner_message message) s = event_of self message s
  payload_event self _ s = (none, s)

  -- The handler of the stream: the event that the actor sends itself, to be handled as
  -- `UpdateInterfaceInfo`. No query socket is a panic.
  unfoldable pub on_netlink :
      InterfaceManager
      → StreamMessage NetlinkPayload
      → m.State
      → Option (Option InterfaceManagerEvent × m.State)
  unfolding payload_event
  on_netlink self message s =
      let (r, s') = m.new_query s in
      elim r [
        | err _ ↦ none
        | ok _ ↦ elim message [
          | StreamMessage.next payload ↦ some (payload_event self payload s')
          | StreamMessage.started ↦ some (none, s')
          | StreamMessage.finished ↦ some (none, s')
        ]
      ]
