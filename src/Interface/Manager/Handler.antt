-- ===== src/Interface/Manager/Handler.antt =====
-- network-daemon/src/interface/mod.rs: the handlers that change an interface, the whole handler of
-- `InterfaceManagerAction`, and the handler of the kernel's messages.
pub mod Untouched
pub mod Indexed
use Prim.Native.String.{String}
use network_daemon.Prelude.{
  ℕ, Option, none, some, List, [], ◌∷◌, map, Bool, true, false, ◌||◌, not, if◌then◌else◌, Result,
  ok, err, ◌===◌, Option_key,
}
use network_daemon.Ip.{PrefixedIpv4Addr, PrefixedIpv6Addr, PrefixedIpAddr, PrefixedIpv4Addr_key}
use network_daemon.Interface.Info.{
  InterfaceInfo, InterfaceManagerEvent, interface_added, interface_removed, interface_changed,
  ConnectionState,
}
use network_daemon.Interface.Link.{Modification}
use network_daemon.Interface.Machine.{Machine}
use network_daemon.Interface.Table
use network_daemon.Interface.Manager.{
  InterfaceManager, Action, Error, no_modifier, netlink_query, ifconfig, not_found, other,
  add_interface, get_interface, get_interface_by_index, broadcast, subscribe, remove_interface,
  lift, pure, raise, gets, modify, or_raise, ◌>>=◌, ◌>>◌,
}
use network_daemon.Interface.Manager.Restore.{same_bool}
use network_daemon.Interface.Manager.Refresh.{refresh_interfaces}
use network_daemon.Interface.Manager.Persist.{persist_policy}
use network_daemon.Interface.Manager.Actions
use network_daemon.Interface.Manager.Actions.{
  InterfaceManagerAction, InterfaceResponse, success, lease_ip, lease_gateway, keep_managed,
  update_and_announce, with_state, handle_add_link, handle_del_link,
}
use network_daemon.Dhcp.Lease.{Lease}
use network_daemon.Route.Manager.{StreamMessage}

unfoldable pub store_slaac : String → Bool → InterfaceManager → InterfaceManager
unfolding add_interface get_interface
store_slaac name state self = elim (get_interface self name) [
  | none ↦ self
  | some info ↦ add_interface (record info { slaac_enabled = state }) self
]

unfoldable pub store_dhcpv4 : String → Bool → InterfaceManager → InterfaceManager
unfolding add_interface get_interface broadcast
store_dhcpv4 name enabled self = elim (get_interface self name) [
  | none ↦ self
  | some info ↦
      let info' = record info { dhcpv4_enabled = enabled } in
      if same_bool info.dhcpv4_enabled enabled
      then self
      else broadcast (interface_changed info') (add_interface info' self)
]

abbrev pub with_gateway : Option PrefixedIpv4Addr → InterfaceInfo → InterfaceInfo
with_gateway gateway info = record info { gateway_ipv4 = gateway }

unfoldable pub set_gateway : Bool → InterfaceInfo → InterfaceManager → InterfaceManager
unfolding add_interface
set_gateway same_gateway info self = if same_gateway then self else add_interface info self

unfoldable pub announce_gateway : Bool → InterfaceInfo → InterfaceManager → InterfaceManager
unfolding broadcast
announce_gateway same_gateway info self =
    if same_gateway then self else broadcast (interface_changed info) self

module _ (m : Machine) where
  abbrev pub Step : Type 0 → Type 0
  Step A = Action m.State (Error m) A

  unfoldable pub del_addresses : ℕ → List PrefixedIpAddr → Step (Unit {0})
  del_addresses ifindex [] = pure tt
  del_addresses ifindex (addr ∷ addrs) = do
    lift netlink_query (m.del_address ifindex addr)
    del_addresses ifindex addrs

  -- The change of the addresses in `mod_ip`.
  unfoldable pub mod_addresses :
      {T : Type 0}
      → (T → PrefixedIpAddr)
      → ℕ
      → Modification T
      → List PrefixedIpAddr
      → Step (Unit {0})
  unfolding del_addresses
  mod_addresses convert ifindex (Modification.remove ip) current_addresses =
      lift netlink_query (m.del_address ifindex (convert ip))
  mod_addresses convert ifindex (Modification.append ip) current_addresses =
      lift netlink_query (m.add_address ifindex (convert ip))
  mod_addresses convert ifindex Modification.clear current_addresses =
      del_addresses ifindex current_addresses
  mod_addresses convert ifindex (Modification.replace ip) current_addresses =
      del_addresses ifindex current_addresses
      >> lift netlink_query (m.add_address ifindex (convert ip))
  mod_addresses convert ifindex Modification.no_change current_addresses = pure tt

  -- `mod_ip`, with the conversion of an address.
  unfoldable pub mod_ip :
      {T : Type 0}
      → (T → PrefixedIpAddr)
      → ℕ
      → Modification T
      → List PrefixedIpAddr
      → Step (Unit {0})
  unfolding mod_addresses
  mod_ip convert ifindex modification current_addresses =
      lift (λ e. other (no_modifier e)) m.new_modifier
      >> mod_addresses convert ifindex modification current_addresses

  -- The parts of `ModLink`.
  unfoldable pub mod_oper_state : String → Modification Bool → Step (Unit {0})
  mod_oper_state name (Modification.replace state) = lift ifconfig (m.set_link_status name state)
  mod_oper_state name _ = pure tt

  unfoldable pub mod_slaac : String → Modification Bool → Step (Unit {0})
  unfolding store_slaac
  mod_slaac name (Modification.replace state) =
      lift ifconfig (m.set_slaac_state name state) >> modify (store_slaac name state)
  mod_slaac name _ = pure tt

  unfoldable pub mod_dhcpv4 : String → Modification Bool → Step (Unit {0})
  unfolding store_dhcpv4
  mod_dhcpv4 name (Modification.replace enabled) = modify (store_dhcpv4 name enabled)
  mod_dhcpv4 name _ = pure tt

  unfoldable pub handle_mod_link :
      String
      → Modification PrefixedIpv4Addr
      → Modification PrefixedIpv6Addr
      → Modification Bool
      → Modification Bool
      → Modification Bool
      → Step InterfaceResponse
  unfolding get_interface mod_ip mod_oper_state mod_slaac mod_dhcpv4 persist_policy
  handle_mod_link name ipv4 ipv6 oper_state slaac dhcpv4 = do
    found ← gets (λ self. get_interface self name)
    info ← or_raise found (not_found name)
    mod_ip PrefixedIpAddr.v4 info.id ipv4 (map PrefixedIpAddr.v4 info.ipv4_addrs)
    mod_ip PrefixedIpAddr.v6 info.id ipv6 (map PrefixedIpAddr.v6 info.ipv6_addrs)
    mod_oper_state name oper_state
    mod_slaac name slaac
    mod_dhcpv4 name dhcpv4
    persist_policy m name slaac dhcpv4
    pure success

  -- The change of the address in `DhcpV4Set`.
  unfoldable pub del_old_ip : ℕ → Option PrefixedIpv4Addr → Step (Unit {0})
  del_old_ip index none = pure tt
  del_old_ip index (some ip) = lift netlink_query (m.del_address index (PrefixedIpAddr.v4 ip))

  unfoldable pub add_new_ip : ℕ → Option PrefixedIpv4Addr → Step (Unit {0})
  add_new_ip index none = pure tt
  add_new_ip index (some ip) = lift netlink_query (m.add_address index (PrefixedIpAddr.v4 ip))

  unfoldable pub set_ip :
      Bool
      → ℕ
      → Option PrefixedIpv4Addr
      → Option PrefixedIpv4Addr
      → Step (Unit {0})
      → Step (Unit {0})
  unfolding del_old_ip add_new_ip
  set_ip same_ip index old_ip new_ip otherwise =
      if same_ip then otherwise else del_old_ip index old_ip >> add_new_ip index new_ip

  unfoldable pub handle_dhcp_v4_set : String → Option Lease → Option Lease → Step InterfaceResponse
  unfolding get_interface lease_ip lease_gateway set_gateway announce_gateway set_ip
  handle_dhcp_v4_set name old_lease new_lease =
      let new_gateway = lease_gateway new_lease in
      let same_gateway = lease_gateway old_lease === new_gateway in
      let same_ip = lease_ip old_lease === lease_ip new_lease in
      do
        found ← gets (λ self. get_interface self name)
        info ← or_raise found (not_found name)
        lift netlink_query m.new_modifier
        modify (set_gateway same_gateway (with_gateway new_gateway info))
        set_ip same_ip info.id (lease_ip old_lease) (lease_ip new_lease)
            (modify (announce_gateway same_gateway (with_gateway new_gateway info)))
        pure success

  -- A name that is not in the table is no error.
  unfoldable pub forgive : Result (Error m) (Unit {0}) → Result (Error m) InterfaceResponse
  forgive (ok _) = ok success
  forgive (err (not_found _)) = ok success
  forgive (err e) = err e

  unfoldable pub handle_update : InterfaceManagerEvent → Step InterfaceResponse
  unfolding add_interface broadcast remove_interface forgive keep_managed update_and_announce
  handle_update (interface_added info) =
      modify (λ self. broadcast (interface_added info) (add_interface info self)) >> pure success
  handle_update (interface_removed info) =
      λ self s. let (r, self', s') = remove_interface m info.name self s in (forgive r, self', s')
  handle_update (interface_changed info) =
      modify (λ self. update_and_announce (keep_managed (Table.get self.table info.name) info) self)
      >> pure success

  -- `UpdateExternalInterfaceState` and `MarkAsUnManaged`.
  unfoldable pub handle_state : String → ConnectionState → Step InterfaceResponse
  unfolding get_interface update_and_announce
  handle_state name state = do
    found ← gets (λ self. get_interface self name)
    info ← or_raise found (not_found name)
    modify (update_and_announce (with_state state info))
    pure success
