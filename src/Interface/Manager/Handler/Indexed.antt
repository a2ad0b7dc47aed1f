-- ===== src/Interface/Manager/Handler/Indexed.antt =====
-- The handlers of network-daemon/src/interface/mod.rs keep the table well-formed.
use Prim.Native.String.{String}
use network_daemon.Prelude.{
  ℕ, ◌≡◌, refl, Option, some, map, ◌===◌, Option_key, Bool, true, false, inl, inr, Option-cases,
  Bool-cases, arith,
}
use network_daemon.Ip.{PrefixedIpv4Addr, PrefixedIpAddr, PrefixedIpv4Addr_key}
use network_daemon.Interface.Info.{InterfaceInfo, ConnectionState}
use network_daemon.Ip.{PrefixedIpv6Addr}
use network_daemon.Interface.Manager.Handler.Untouched.{
  mod_ip-Still, mod_oper_state-Still, persist_policy-Still, set_ip-Still,
}
use network_daemon.Dhcp.Lease.{Lease}
use network_daemon.Interface.Link.{Modification}
use network_daemon.Interface.Machine.{Machine}
use network_daemon.Interface.Table
use network_daemon.Interface.Table.Indexed.{IsIndexed, IsFree}
use network_daemon.Interface.Table.Kept.{insert_kept, own-IsFree}
use network_daemon.Interface.Table.Laws.{update-IsIndexed}
use network_daemon.Interface.Manager.{
  InterfaceManager, Action, Error, ◌>>◌, pure, lift, modify, broadcast, add_interface,
  get_interface, netlink_query, ifconfig,
}
use network_daemon.Interface.Manager.Keeps.{Still-Keeps, Keeps, then-Keeps, lift-Keeps, lift-then}
use network_daemon.Interface.Manager.Restore.{same_bool}
use network_daemon.Interface.Manager.Persist.{persist_policy}
use network_daemon.Interface.Manager.Actions.{
  InterfaceResponse, success, lease_ip, lease_gateway, update_and_announce, with_state,
}
use network_daemon.Interface.Manager.Handler.{
  mod_ip, mod_oper_state, mod_slaac, mod_dhcpv4, store_slaac, store_dhcpv4, handle_mod_link,
  del_old_ip, add_new_ip, with_gateway, set_gateway, announce_gateway, set_ip, handle_dhcp_v4_set,
  handle_state,
}

abbrev pub Indexed : InterfaceManager → Type 0
Indexed self = IsIndexed self.table

-- An interface that is stored again with its name, index, type, parent and state.
add_interface-kept :
    (self : InterfaceManager) (info old : InterfaceInfo)
    → Indexed self
    → get_interface self info.name ≡ some old
    → info.id ≡ old.id
    → info.interface_type ≡ old.interface_type
    → info.parent ≡ old.parent
    → info.state ≡ old.state
    → Indexed (add_interface info self)
unfolding add_interface get_interface Table.get
add_interface-kept self info old h e = insert_kept self.table h info old e

own_name :
    (self : InterfaceManager) (name : String) (info : InterfaceInfo)
    → Indexed self
    → get_interface self name ≡ some info
    → info.name ≡ name
unfolding get_interface Table.get
own_name self name info h e = h.named name info e

-- An interface that gets another gateway.
set_gateway-Indexed :
    (self : InterfaceManager) (name : String) (info : InterfaceInfo) (same_gateway : Bool)
    (gateway : Option PrefixedIpv4Addr)
    → Indexed self
    → get_interface self name ≡ some info
    → Indexed (set_gateway same_gateway (with_gateway gateway info) self)
unfolding set_gateway
set_gateway-Indexed self name info true gateway h e = h
set_gateway-Indexed self name info false gateway h e =
    add_interface-kept self (with_gateway gateway info) info h
      (ground (arith, own_name self name info h e)) refl refl refl refl

store_slaac-Indexed :
    (name : String) (state : Bool) (self : InterfaceManager)
    → Indexed self
    → Indexed (store_slaac name state self)
unfolding store_slaac
store_slaac-Indexed name state self h = elim (Option-cases (get_interface self name)) [
  | inl miss ↦ rw (miss, store_slaac) h
  | inr (info, e) ↦
      rw (e, store_slaac)
        (add_interface-kept self (record info { slaac_enabled = state }) info h
          (ground (arith, own_name self name info h e)) refl refl refl refl)
]

store_dhcpv4-Indexed :
    (name : String) (enabled : Bool) (self : InterfaceManager)
    → Indexed self
    → Indexed (store_dhcpv4 name enabled self)
unfolding store_dhcpv4 broadcast
store_dhcpv4-Indexed name enabled self h = elim (Option-cases (get_interface self name)) [
  | inl miss ↦ rw (miss, store_dhcpv4) h
  | inr (info, e) ↦ elim (Bool-cases (same_bool info.dhcpv4_enabled enabled)) [
    | inl same ↦ rw (e, same, store_dhcpv4) h
    | inr new ↦
        rw (e, new, store_dhcpv4)
          (add_interface-kept self (record info { dhcpv4_enabled = enabled }) info h
            (ground (arith, own_name self name info h e)) refl refl refl refl)
  ]
]

pub update_and_announce-Indexed :
    (info : InterfaceInfo) (self : InterfaceManager)
    → Indexed self
    → IsFree info.id info.name self.table
    → Indexed (update_and_announce info self)
unfolding update_and_announce broadcast
update_and_announce-Indexed info self h free = (update-IsIndexed self.table info h free).2

module _ (m : Machine) where
  mod_slaac-Keeps :
      (name : String) (slaac : Modification Bool) → Keeps Indexed (mod_slaac m name slaac)
  unfolding mod_slaac
  mod_slaac-Keeps name (Modification.replace state) =
      then-Keeps Indexed (lift ifconfig (m.set_slaac_state name state))
        (modify (store_slaac name state))
        (lift-Keeps Indexed ifconfig (m.set_slaac_state name state))
        (λ self s h. store_slaac-Indexed name state self h)
  mod_slaac-Keeps name _ = λ self s h. h

  mod_dhcpv4-Keeps :
      (name : String) (dhcpv4 : Modification Bool) → Keeps Indexed (mod_dhcpv4 m name dhcpv4)
  unfolding mod_dhcpv4
  mod_dhcpv4-Keeps name (Modification.replace enabled) =
      λ self s h. store_dhcpv4-Indexed name enabled self h
  mod_dhcpv4-Keeps name _ = λ self s h. h

  -- `ModLink` keeps the table well-formed, whatever part of it fails.
  pub handle_mod_link-Indexed :
      (name : String) (ipv4 : Modification PrefixedIpv4Addr) (ipv6 : Modification PrefixedIpv6Addr)
      (oper_state slaac dhcpv4 : Modification Bool)
      → Keeps Indexed (handle_mod_link m name ipv4 ipv6 oper_state slaac dhcpv4)
  unfolding handle_mod_link
  handle_mod_link-Indexed name ipv4 ipv6 oper_state slaac dhcpv4 self s h =
      elim (Option-cases (get_interface self name)) [
        | inl miss ↦ rw (miss) h
        | inr (info, e) ↦
            let first =
              mod_ip m PrefixedIpAddr.v4 info.id ipv4 (map PrefixedIpAddr.v4 info.ipv4_addrs) in
            let second =
              mod_ip m PrefixedIpAddr.v6 info.id ipv6 (map PrefixedIpAddr.v6 info.ipv6_addrs) in
            let status = mod_oper_state m name oper_state in
            let advertise = mod_slaac m name slaac in
            let lease = mod_dhcpv4 m name dhcpv4 in
            let persist = persist_policy m name slaac dhcpv4 in
            let done : Action m.State (Error m) InterfaceResponse = pure success in
            rw e (
              then-Keeps Indexed first
                (second >> (status >> (advertise >> (lease >> (persist >> done)))))
                (Still-Keeps Indexed first (mod_ip-Still m PrefixedIpAddr.v4 info.id ipv4 _))
                (then-Keeps Indexed second (status >> (advertise >> (lease >> (persist >> done))))
                  (Still-Keeps Indexed second (mod_ip-Still m PrefixedIpAddr.v6 info.id ipv6 _))
                  (then-Keeps Indexed status (advertise >> (lease >> (persist >> done)))
                    (Still-Keeps Indexed status (mod_oper_state-Still m name oper_state))
                    (then-Keeps Indexed advertise (lease >> (persist >> done))
                      (mod_slaac-Keeps name slaac)
                      (then-Keeps Indexed lease (persist >> done) (mod_dhcpv4-Keeps name dhcpv4) (
                        then-Keeps Indexed persist done
                          (Still-Keeps Indexed persist (persist_policy-Still m name slaac dhcpv4))
                          (λ self' s' h'. h'))))))
                self s h)
      ]

  announce_gateway-Indexed :
      (same_gateway : Bool) (info : InterfaceInfo) (self : InterfaceManager)
      → Indexed self
      → Indexed (announce_gateway same_gateway info self)
  unfolding announce_gateway broadcast
  announce_gateway-Indexed true info self h = h
  announce_gateway-Indexed false info self h = h

  pub handle_state-Indexed :
      (name : String) (state : ConnectionState) → Keeps Indexed (handle_state m name state)
  unfolding handle_state get_interface Table.get
  handle_state-Indexed name state self s h = elim (Option-cases (get_interface self name)) [
    | inl miss ↦ rw miss h
    | inr (info, e) ↦ rw e (
        update_and_announce-Indexed (with_state state info) self h (λ n p.
          own-IsFree self.table h info.name info (ground (arith, own_name self name info h e)) n p))
  ]

  set_ip-Keeps :
      (same_ip : Bool) (index : ℕ) (old new : Option PrefixedIpv4Addr) (same_gateway : Bool)
      (info : InterfaceInfo)
      → Keeps Indexed (set_ip m same_ip index old new (modify (announce_gateway same_gateway info)))
  unfolding set_ip
  set_ip-Keeps true index old new same_gateway info =
      λ self s h. announce_gateway-Indexed same_gateway info self h
  set_ip-Keeps false index old new same_gateway info =
      Still-Keeps Indexed (del_old_ip m index old >> add_new_ip m index new)
        (set_ip-Still m false index old new (modify (announce_gateway same_gateway info)) refl)

  pub handle_dhcp_v4_set-Indexed :
      (name : String) (old new : Option Lease) → Keeps Indexed (handle_dhcp_v4_set m name old new)
  unfolding handle_dhcp_v4_set
  handle_dhcp_v4_set-Indexed name old new self s h = elim (Option-cases (get_interface self name)) [
    | inl miss ↦ rw miss h
    | inr (info, e) ↦
        let gateway = lease_gateway new in
        let same_gateway = lease_gateway old === gateway in
        let same_ip = lease_ip old === lease_ip new in
        let announce = modify (announce_gateway same_gateway (with_gateway gateway info)) in
        let addresses = set_ip m same_ip info.id (lease_ip old) (lease_ip new) announce in
        let done : Action m.State (Error m) InterfaceResponse = pure success in
        let changed = set_gateway same_gateway (with_gateway gateway info) in
        rw e (
          lift-then Indexed netlink_query m.new_modifier (modify changed >> (addresses >> done))
            self s h
            (λ s'.
              then-Keeps Indexed addresses done
                (set_ip-Keeps same_ip info.id (lease_ip old) (lease_ip new) same_gateway
                  (with_gateway gateway info))
                (λ self'' s'' h''. h'') (changed self) s'
                (set_gateway-Indexed self name info same_gateway gateway h e)))
  ]
