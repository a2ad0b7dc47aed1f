-- ===== src/Interface/Manager/Actions.antt =====
-- network-daemon/src/interface/mod.rs: the handler of `InterfaceManagerAction`.
use Prim.Native.String.{String}
use network_daemon.Prelude.{
  ℕ, zero, suc, ◌+◌, ◌/◌, ◌%◌, ◌^◌, ◌==◌, Option, none, some, List, [], ◌∷◌, Bool, if◌then◌else◌,
  ok, err, ◌===◌, Option_key,
}
use network_daemon.Ip.{PrefixedIpv4Addr, PrefixedIpv6Addr, PrefixedIpv4Addr_key}
use network_daemon.Interface.Info.{
  InterfaceInfo, InterfaceManagerEvent, interface_changed, InterfaceType, ConnectionState,
  InterfaceType_key, ConnectionState_key,
}
use network_daemon.Interface.Link.{LinkOptions, LaggProtocol, Modification, default_wlan}
use network_daemon.Interface.Machine.{Machine}
use network_daemon.Interface.Table
use network_daemon.Interface.Manager.{
  InterfaceManager, Action, Error, interface_exists, wlan_options, no_wireless_device,
  bridge_options, lagg_options, vlan_parent_and_tag, vlan_options, provided_by_kernel,
  netlink_query, ifconfig, not_found, other, get_interface, broadcast, lift, pure, raise, gets,
  or_raise, ◌>>=◌, ◌>>◌,
}
use network_daemon.Interface.Manager.Refresh.{refresh_interfaces}
use network_daemon.Interface.Manager.Persist.{persist_creation, remove_persisted_creation}
use network_daemon.Dhcp.Lease.{Lease}

pub data InterfaceManagerAction : Type 0 where
  force_refresh get_all_interfaces get_wireless_devices subscribe_events : InterfaceManagerAction
  get_interface_info : String → InterfaceManagerAction
  update_interface_info : InterfaceManagerEvent → InterfaceManagerAction
  update_external_interface_state : String → ConnectionState → InterfaceManagerAction
  mark_as_unmanaged : String → InterfaceManagerAction
  get_interfaces_by_type : InterfaceType → InterfaceManagerAction
  get_interfaces_by_parent : String → InterfaceManagerAction
  get_interfaces_by_state : ConnectionState → InterfaceManagerAction
  add_link : String → InterfaceType → Option LinkOptions → InterfaceManagerAction
  del_link : String → InterfaceManagerAction
  mod_link :
      String
      → Modification PrefixedIpv4Addr
      → Modification PrefixedIpv6Addr
      → Modification Bool
      → Modification Bool
      → Modification Bool
      → InterfaceManagerAction
  dhcp_v4_set : String → Option Lease → Option Lease → InterfaceManagerAction

-- `InterfaceResponse`; a receiver is its number.
pub data InterfaceResponse : Type 0 where
  success : InterfaceResponse
  single_info : InterfaceInfo → InterfaceResponse
  info_list : List InterfaceInfo → InterfaceResponse
  wireless_devices : List String → InterfaceResponse
  event_receiver : ℕ → InterfaceResponse

-- `u32::leading_ones`, of the bits below `n`.
unfoldable pub leading_ones : ℕ → ℕ → ℕ
leading_ones zero a = 0
leading_ones (suc n) a = let rest = leading_ones n a in if a / 2 ^ n % 2 == 1 then rest + 1 else 0

-- The address and the gateway of a lease.
unfoldable pub lease_ip : Option Lease → Option PrefixedIpv4Addr
unfolding leading_ones
lease_ip none = none
lease_ip (some lease) =
    some (record { addr = lease.assigned_ip; prefix_len = leading_ones 32 lease.subnet_mask })

unfoldable pub lease_gateway : Option Lease → Option PrefixedIpv4Addr
lease_gateway none = none
lease_gateway (some lease) = elim lease.router [
  | none ↦ none
  | some router ↦ some (record { addr = router; prefix_len = 32 })
]

-- `InterfaceChanged` of `UpdateInterfaceInfo`: what the table knows better than the kernel.
unfoldable pub keep_managed : Option InterfaceInfo → InterfaceInfo → InterfaceInfo
keep_managed none info = info
keep_managed (some current) info =
    let state : ConnectionState =
      if current.state === ConnectionState.unmanaged
      then ConnectionState.unmanaged
      else if current.interface_type === InterfaceType.wlan
      then current.state
      else info.state in
    record info {
      state = state;
      gateway_ipv4 = current.gateway_ipv4;
      gateway_ipv6 = current.gateway_ipv6;
      dhcpv4_enabled = current.dhcpv4_enabled;
      slaac_enabled = current.slaac_enabled;
    }

-- `self.table.update(info)`, and the event `InterfaceChanged`.
unfoldable pub update_and_announce : InterfaceInfo → InterfaceManager → InterfaceManager
unfolding broadcast
update_and_announce info self =
    broadcast (interface_changed info) (record self { table = (Table.update self.table info).0 })

-- The handlers of `UpdateExternalInterfaceState` and `MarkAsUnManaged` put a state in place.
abbrev pub with_state : ConnectionState → InterfaceInfo → InterfaceInfo
with_state state info = record info { state = state }

module _ (m : Machine) where
  -- The parameters of the link that `AddLink` creates.
  unfoldable pub creation_of :
      InterfaceType → Option LinkOptions → Action m.State (Error m) LinkOptions
  creation_of InterfaceType.wlan (some (LinkOptions.wlan parent options)) =
      pure (LinkOptions.wlan parent options)
  creation_of InterfaceType.wlan (some _) = raise (other wlan_options)
  creation_of InterfaceType.wlan none = do
    devices ← lift ifconfig m.wireless_devices
    elim devices [
      | [] ↦ raise (other no_wireless_device)
      | ◌∷◌ parent _ ↦ pure (LinkOptions.wlan parent default_wlan)
    ]
  creation_of InterfaceType.bridge none = pure (LinkOptions.bridge [])
  creation_of InterfaceType.bridge (some (LinkOptions.bridge members)) =
      pure (LinkOptions.bridge members)
  creation_of InterfaceType.bridge (some _) = raise (other bridge_options)
  creation_of InterfaceType.lagg none = pure (LinkOptions.lagg LaggProtocol.failover [])
  creation_of InterfaceType.lagg (some (LinkOptions.lagg protocol members)) =
      pure (LinkOptions.lagg protocol members)
  creation_of InterfaceType.lagg (some _) = raise (other lagg_options)
  creation_of InterfaceType.vlan (some (LinkOptions.vlan parent tag)) =
      pure (LinkOptions.vlan parent tag)
  creation_of InterfaceType.vlan none = raise (other vlan_parent_and_tag)
  creation_of InterfaceType.vlan (some _) = raise (other vlan_options)
  creation_of kind _ = raise (other (provided_by_kernel kind))

  -- A link whose creation cannot be persisted is destroyed again; a failure to do so is only logged.
  unfoldable pub persist_or_destroy : String → LinkOptions → Action m.State (Error m) (Unit {0})
  unfolding persist_creation
  persist_or_destroy name creation self s =
      let (r, self', s') = persist_creation m name creation self s in
      elim r [
        | ok _ ↦ (ok tt, self', s')
        | err error ↦ (err error, self', (m.destroy_link name s').1)
      ]

  unfoldable pub handle_add_link :
      String → InterfaceType → Option LinkOptions → Action m.State (Error m) InterfaceResponse
  unfolding creation_of persist_or_destroy refresh_interfaces get_interface
  handle_add_link name kind options = do
    found ← gets (λ self. get_interface self name)
    elim found [ none ↦ pure tt | some _ ↦ raise (other (interface_exists name)) ]
    creation ← creation_of kind options
    lift ifconfig (m.create_link name creation)
    persist_or_destroy name creation
    refresh_interfaces m
    pure success

  unfoldable pub handle_del_link : String → Action m.State (Error m) InterfaceResponse
  unfolding remove_persisted_creation get_interface
  handle_del_link name = do
    lift netlink_query m.new_modifier
    found ← gets (λ self. get_interface self name)
    info ← or_raise found (not_found name)
    lift netlink_query (m.del_link info.id)
    remove_persisted_creation m name
    pure success
