-- ===== src/Interface/Manager/Messages/Events.antt =====
-- What the events of the kernel do to an interface in network-daemon/src/interface/mod.rs.
use Prim.Native.String.{String}
use network_daemon.Prelude.{
  ℕ, ◌≡◌, refl, none, some, List, [], ◌∷◌, ◌++◌, ok, string_key, ◌===◌, if◌then◌else◌, arith,
}
use network_daemon.Broadcast.Delivered.{received, received-broadcast}
use network_daemon.Interface.Info.{
  InterfaceInfo, InterfaceManagerEvent, interface_removed, interface_changed, InterfaceType,
  ConnectionState, InterfaceType_key, ConnectionState_key,
}
use network_daemon.Interface.Machine.{Machine}
use network_daemon.Interface.Table
use network_daemon.Interface.Table.Indexed.{IsIndexed, IsFree}
use network_daemon.Interface.Table.Laws.{remove-IsIndexed, update-IsIndexed}
use network_daemon.Interface.Manager.{InterfaceManager, broadcast, remove_interface}
use network_daemon.Interface.Manager.Actions.{keep_managed, update_and_announce, success}
use network_daemon.Interface.Manager.Handler.{handle_update, forgive}

-- The interface is stored under its name, and a subscriber gets just this interface as a change.
update_and_announce_lem :
    (info : InterfaceInfo) (self : InterfaceManager) (r : ℕ) (l : List InterfaceManagerEvent)
    → IsIndexed self.table
    → IsFree info.id info.name self.table
    → received r self.event_broadcaster.senders ≡ some l
    → let self' = update_and_announce info self in
      ((n : String)
        → Table.get self'.table n ≡ (if info.name === n then some info else Table.get self.table n))
      × (received r self'.event_broadcaster.senders ≡ some (l ++ interface_changed info ∷ []))
unfolding update_and_announce broadcast
update_and_announce_lem info self r l h free e =
    let (_, stored, _) = update-IsIndexed self.table info h free in
    (stored, received-broadcast r (interface_changed info) self.event_broadcaster l e)

module _ (m : Machine) where
  -- A change that the kernel reports for an interface of the table leaves the other interfaces alone,
  -- and is stored and announced to each subscriber as one interface: with the addresses of the kernel's
  -- report, but with the gateways and the two flags that the table had. Its state is the table's if
  -- that is unmanaged or the interface is a WLAN, and else the kernel's.
  pub handle_update-interface_changed :
      (info current : InterfaceInfo) (self : InterfaceManager) (s : m.State) (r : ℕ)
      (l : List InterfaceManagerEvent)
      → IsIndexed self.table
      → IsFree info.id info.name self.table
      → Table.get self.table info.name ≡ some current
      → received r self.event_broadcaster.senders ≡ some l
      → let self' = (handle_update m (interface_changed info) self s).1 in
        (new : InterfaceInfo) × ((n : String)
          → Table.get self'.table n
            ≡ (if info.name === n then some new else Table.get self.table n))
        × (received r self'.event_broadcaster.senders ≡ some (l ++ interface_changed new ∷ []))
        × (new.ipv4_addrs ≡ info.ipv4_addrs)
        × (new.ipv6_addrs ≡ info.ipv6_addrs)
        × (new.gateway_ipv4 ≡ current.gateway_ipv4)
        × (new.gateway_ipv6 ≡ current.gateway_ipv6)
        × (new.dhcpv4_enabled ≡ current.dhcpv4_enabled)
        × (new.slaac_enabled ≡ current.slaac_enabled)
        × (new.state ≡ (
            if current.state === ConnectionState.unmanaged
            then current.state
            else if current.interface_type === InterfaceType.wlan
            then current.state
            else info.state))
  unfolding handle_update keep_managed
  handle_update-interface_changed info current self s r l h free e got =
      let new = keep_managed (some current) info in
      let (stored, told) = update_and_announce_lem new self r l h free got in
      (new, rw e stored, rw e told, refl, refl, refl, refl, refl, refl, ground arith)

  -- A removal that the kernel reports takes the interface out of the table, if it is there, and is no
  -- error, but no subscriber is told.
  pub handle_update-interface_removed :
      (info : InterfaceInfo) (self : InterfaceManager) (s : m.State)
      → IsIndexed self.table
      → let (answer, self', s') = handle_update m (interface_removed info) self s in
        (answer ≡ ok success)
        × ((n : String)
            → Table.get self'.table n ≡ (if info.name === n then none else Table.get self.table n))
        × (self'.event_broadcaster ≡ self.event_broadcaster)
  unfolding handle_update remove_interface forgive
  handle_update-interface_removed info self s h =
      let (old, gone, _) = remove-IsIndexed self.table info.name h in
      (ground arith, λ n. ground (arith, gone n), ground arith)
