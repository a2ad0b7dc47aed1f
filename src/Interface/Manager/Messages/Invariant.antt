-- ===== src/Interface/Manager/Messages/Invariant.antt =====
-- Every message of network-daemon/src/interface/mod.rs keeps the table well-formed.
use Prim.Native.String.{String}
use network_daemon.Prelude.{◌≡◌, refl, Option, none, some, Option-cases, inl, inr, arith}
use network_daemon.Interface.Info.{
  InterfaceInfo, InterfaceManagerEvent, interface_added, interface_removed, interface_changed,
  InterfaceType, ConnectionState, InterfaceType_key, ConnectionState_key,
}
use network_daemon.Interface.Link.{LinkOptions}
use network_daemon.Interface.Machine.{Machine}
use network_daemon.Interface.Table
use network_daemon.Interface.Table.{InterfaceTable}
use network_daemon.Interface.Table.Indexed.{IsIndexed, IsFree, insert_absent}
use network_daemon.Interface.Table.Laws.{remove-IsIndexed}
use network_daemon.Interface.Manager.{
  InterfaceManager, Error, Action, ifconfig, get_interface, add_interface, broadcast, subscribe,
  remove_interface, lift, pure, ◌>>◌,
}
use network_daemon.Interface.Manager.Keeps.{
  Still, Still-Keeps, Keeps, bind-Keeps, then-Keeps, lift-Keeps,
}
use network_daemon.Interface.Manager.Refresh.{refresh_interfaces}
use network_daemon.Interface.Manager.Refresh.Distinct.{ReportsApart, refresh_interfaces-IsIndexed}
use network_daemon.Interface.Manager.Persist.{remove_persisted_creation}
use network_daemon.Interface.Manager.Actions.{
  InterfaceManagerAction, InterfaceResponse, success, keep_managed, creation_of, persist_or_destroy,
  handle_add_link, handle_del_link, update_interface_info, add_link, del_link, mod_link,
  dhcp_v4_set, force_refresh, update_external_interface_state, mark_as_unmanaged,
  get_interface_info, get_all_interfaces, get_interfaces_by_type, get_interfaces_by_parent,
  get_interfaces_by_state, get_wireless_devices, subscribe_events, wireless_devices,
}
use network_daemon.Interface.Manager.Handler.{handle_update}
use network_daemon.Interface.Manager.Handler.Untouched.{persist_or_destroy-Still}
use network_daemon.Interface.Manager.Handler.Indexed.{
  Indexed, handle_mod_link-Indexed, handle_dhcp_v4_set-Indexed, handle_state-Indexed,
  update_and_announce-Indexed,
}
use network_daemon.Interface.Manager.Messages.{handle}

-- What an event of the kernel has to be for the table: one that adds an interface has a name that is
-- not in the table, and none gives an interface the index of another one.
abbrev pub Fits : InterfaceManagerEvent → InterfaceTable → Type 0
Fits (interface_added info) t = (Table.get t info.name ≡ none) × IsFree info.id info.name t
Fits (interface_removed info) t = Unit
Fits (interface_changed info) t = IsFree info.id info.name t

abbrev pub ActionFits : InterfaceManagerAction → InterfaceTable → Type 0
ActionFits (update_interface_info event) t = Fits event t
ActionFits _ t = Unit

keep_managed_own :
    (current : Option InterfaceInfo) (info : InterfaceInfo)
    → ((keep_managed current info).id ≡ info.id) × ((keep_managed current info).name ≡ info.name)
unfolding keep_managed
keep_managed_own none info = (refl, refl)
keep_managed_own (some current) info = (refl, refl)

module _ (m : Machine) where
  handle_update-IsIndexed :
      (event : InterfaceManagerEvent) (self : InterfaceManager) (s : m.State)
      → Indexed self
      → Fits event self.table
      → Indexed (handle_update m event self s).1
  unfolding handle_update add_interface broadcast remove_interface Table.get
  handle_update-IsIndexed (interface_added info) self s h (absent, free) =
      insert_absent self.table h info absent free
  handle_update-IsIndexed (interface_removed info) self s h fits =
      let (_, _, indexed) = remove-IsIndexed self.table info.name h in
      let same : (remove_interface m info.name self s).1.table
          ≡ (Table.remove self.table info.name).0 =
        ground arith in
      rw same indexed
  handle_update-IsIndexed (interface_changed info) self s h free =
      let (id, name) = keep_managed_own (Table.get self.table info.name) info in
      update_and_announce-Indexed (keep_managed (Table.get self.table info.name) info) self h
        (rw (id, name) free)

  creation_of-Still :
      (kind : InterfaceType) (options : Option LinkOptions) → Still (creation_of m kind options)
  unfolding creation_of
  creation_of-Still kind options self s = ground arith

  handle_del_link-Still : (name : String) → Still (handle_del_link m name)
  unfolding handle_del_link remove_persisted_creation
  handle_del_link-Still name self s = ground arith

  -- What is left of `AddLink` when the parameters of the link are known.
  created_link-Keeps :
      ReportsApart m
      → (name : String) (creation : LinkOptions)
      → Keeps Indexed (
          lift ifconfig (m.create_link name creation)
          >> (persist_or_destroy m name creation >> (refresh_interfaces m >> pure success)))
  created_link-Keeps laws name creation =
      let create = lift ifconfig (m.create_link name creation) in
      let persist = persist_or_destroy m name creation in
      let done : Action m.State (Error m) InterfaceResponse = pure success in
      then-Keeps Indexed create (persist >> (refresh_interfaces m >> done))
        (lift-Keeps Indexed ifconfig (m.create_link name creation))
        (then-Keeps Indexed persist (refresh_interfaces m >> done)
          (Still-Keeps Indexed persist (persist_or_destroy-Still m name creation))
          (then-Keeps Indexed (refresh_interfaces m) done
            (λ self s h. refresh_interfaces-IsIndexed m laws self s h) (λ self s h. h)))

  handle_add_link-Indexed :
      ReportsApart m
      → (name : String) (kind : InterfaceType) (options : Option LinkOptions)
      → Keeps Indexed (handle_add_link m name kind options)
  unfolding handle_add_link
  handle_add_link-Indexed laws name kind options self s h =
      elim (Option-cases (get_interface self name)) [
        | inr (info, e) ↦ rw e h
        | inl e ↦ rw e (
            bind-Keeps Indexed (creation_of m kind options)
              (λ creation.
                lift ifconfig (m.create_link name creation)
                >> (persist_or_destroy m name creation >> (refresh_interfaces m >> pure success)))
              (Still-Keeps Indexed (creation_of m kind options) (creation_of-Still kind options))
              (created_link-Keeps laws name) self s h)
      ]

  -- If no two interfaces that the kernel reports share a name or an index, every message to the actor
  -- keeps the table well-formed, on success and on error. Of the events of the kernel this takes those
  -- that fit the table.
  pub handle-IsIndexed :
      ReportsApart m
      → (action : InterfaceManagerAction) (self : InterfaceManager) (s : m.State)
      → IsIndexed self.table
      → ActionFits action self.table
      → IsIndexed (handle m action self s).1.table
  unfolding handle subscribe
  handle-IsIndexed laws (add_link name kind options) self s h fits =
      handle_add_link-Indexed laws name kind options self s h
  handle-IsIndexed laws (del_link name) self s h fits =
      Still-Keeps Indexed (handle_del_link m name) (handle_del_link-Still name) self s h
  handle-IsIndexed laws (mod_link name ipv4 ipv6 oper_state slaac dhcpv4) self s h fits =
      handle_mod_link-Indexed m name ipv4 ipv6 oper_state slaac dhcpv4 self s h
  handle-IsIndexed laws (dhcp_v4_set name old_lease new_lease) self s h fits =
      handle_dhcp_v4_set-Indexed m name old_lease new_lease self s h
  handle-IsIndexed laws force_refresh self s h fits =
      then-Keeps Indexed (refresh_interfaces m) (pure success)
        (λ self' s' h'. refresh_interfaces-IsIndexed m laws self' s' h') (λ self' s' h'. h') self s
        h
  handle-IsIndexed laws (get_interface_info name) self s h fits =
      elim (Option-cases (get_interface self name)) [ inl e ↦ rw e h | inr (info, e) ↦ rw e h ]
  handle-IsIndexed laws (update_interface_info event) self s h fits =
      handle_update-IsIndexed event self s h fits
  handle-IsIndexed laws (update_external_interface_state name state) self s h fits =
      handle_state-Indexed m name state self s h
  handle-IsIndexed laws (mark_as_unmanaged name) self s h fits =
      handle_state-Indexed m name ConnectionState.unmanaged self s h
  handle-IsIndexed laws get_all_interfaces self s h fits = h
  handle-IsIndexed laws (get_interfaces_by_type interface_type) self s h fits = h
  handle-IsIndexed laws (get_interfaces_by_parent parent) self s h fits = h
  handle-IsIndexed laws (get_interfaces_by_state state) self s h fits = h
  handle-IsIndexed laws get_wireless_devices self s h fits =
      bind-Keeps Indexed (lift ifconfig m.wireless_devices)
        (λ devices. pure (wireless_devices devices))
        (lift-Keeps Indexed ifconfig m.wireless_devices) (λ devices self' s' h'. h') self s h
  handle-IsIndexed laws subscribe_events self s h fits = h
