-- ===== src/Interface/Manager/Refresh.antt =====
-- network-daemon/src/interface/mod.rs: `refresh_interfaces`, which fills the table with what the kernel
-- reports, and tells the subscribers what has changed.
pub mod Replaced
pub mod Distinct
use network_daemon.Prelude.{
  List, [], ◌∷◌, Bool, true, false, if◌then◌else◌, Result, ok, err, ◌++◌, map,
}
use network_daemon.Prelude.Set
use network_daemon.Interface.Info.{
  InterfaceInfo, InterfaceManagerEvent, interface_added, interface_removed, InterfaceInfo_key,
}
use network_daemon.Interface.Machine.{Machine}
use network_daemon.Interface.Table
use network_daemon.Interface.Table.{InterfaceTable, empty}
use network_daemon.Interface.Table.Clashes.{insert_all}
use network_daemon.Interface.Manager.{
  InterfaceManager, Action, Error, broadcast, netlink_query, lift, pure, modify, gets, ◌>>=◌, ◌>>◌,
}
use network_daemon.Interface.Manager.Restore.{
  create_configured_links, create_auto_wlans, apply_saved_policies,
}

unfoldable pub broadcast_all : List InterfaceManagerEvent → InterfaceManager → InterfaceManager
unfolding broadcast
broadcast_all [] self = self
broadcast_all (event ∷ events) self = broadcast_all events (broadcast event self)

-- The last part of `refresh_interfaces`: the new table, and the events.
unfoldable pub replace_interfaces : List InterfaceInfo → InterfaceManager → InterfaceManager
unfolding broadcast_all insert_all
replace_interfaces interfaces self =
    let old_interfaces_set = Set.collect (Table.all self.table) in
    let new_interfaces_set = Set.collect interfaces in
    let added_interfaces = Set.difference new_interfaces_set old_interfaces_set in
    let removed_interfaces = Set.difference old_interfaces_set new_interfaces_set in
    let self' = record self { table = insert_all (Table.clear self.table) new_interfaces_set } in
    broadcast_all (map interface_added added_interfaces)
      (broadcast_all (map interface_removed removed_interfaces) self')

module _ (m : Machine) where
  abbrev query_links : Action m.State (Error m) (List InterfaceInfo)
  query_links = lift netlink_query m.query_links

  -- A step that may create links; the interfaces are asked for again if it did.
  unfoldable pub query_again :
      (List InterfaceInfo → m.State → Bool × m.State)
      → List InterfaceInfo
      → Action m.State (Error m) (List InterfaceInfo)
  query_again create interfaces self s =
      let (created, s') = create interfaces s in
      elim created [ true ↦ query_links self s' | false ↦ (ok interfaces, self, s') ]

  -- The parts of `refresh_interfaces` from the restored links on, from the WLAN interfaces on, and the
  -- policies.
  unfoldable pub applied : List InterfaceInfo → Action m.State (Error m) (List InterfaceInfo)
  unfolding apply_saved_policies
  applied interfaces self s =
      let (changed, s') = apply_saved_policies m interfaces s in (ok changed, self, s')

  unfoldable pub with_wlans : List InterfaceInfo → Action m.State (Error m) (List InterfaceInfo)
  unfolding query_again create_auto_wlans applied
  with_wlans interfaces = query_again (create_auto_wlans m) interfaces >>= applied

  unfoldable pub with_links : List InterfaceInfo → Action m.State (Error m) (List InterfaceInfo)
  unfolding query_again create_configured_links with_wlans
  with_links interfaces = query_again (create_configured_links m) interfaces >>= with_wlans

  -- The interfaces that the kernel reports at last, with the saved policies.
  unfoldable pub report : Action m.State (Error m) (List InterfaceInfo)
  unfolding with_links
  report = do
    lift netlink_query m.new_query
    interfaces ← lift netlink_query m.query_links
    with_links interfaces

  unfoldable pub refresh_interfaces : Action m.State (Error m) (Unit {0})
  unfolding report replace_interfaces
  refresh_interfaces = do interfaces ← report; modify (replace_interfaces interfaces)
