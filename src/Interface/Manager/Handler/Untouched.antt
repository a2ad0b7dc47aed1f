-- ===== src/Interface/Manager/Handler/Untouched.antt =====
-- The handlers of network-daemon/src/interface/mod.rs that ask something of the machine leave the actor as it is.
use Prim.Native.String.{String}
use network_daemon.Prelude.{ℕ, ◌≡◌, refl, Option, List, [], ◌∷◌, Bool, false, Result, arith}
use network_daemon.Ip.{PrefixedIpv4Addr, PrefixedIpAddr}
use network_daemon.Interface.Info.{InterfaceInfo}
use network_daemon.Interface.Link.{Modification}
use network_daemon.Interface.Machine.{Machine}
use network_daemon.Interface.Manager.{Action, Error, lift, netlink_query, other, no_modifier}
use network_daemon.Interface.Manager.Keeps.{Still, then-Still}
use network_daemon.Interface.Link.{LinkOptions}
use network_daemon.Interface.Manager.Refresh.{query_again, report}
use network_daemon.Interface.Manager.Persist.{
  persist_creation, remove_persisted_creation, persist_policy, load_or_default,
}
use network_daemon.Interface.Manager.Actions.{persist_or_destroy}
use network_daemon.Interface.Manager.Handler.{
  del_addresses, mod_addresses, mod_ip, mod_oper_state, del_old_ip, add_new_ip, set_ip,
}

-- The requests to the machine alone leave the actor as it is.
module _ (m : Machine) where
  pub lift-Still :
      {A F : Type 0} (convert : F → Error m) (call : m.State → Result F A × m.State)
      → Still (lift convert call)
  lift-Still convert call self s = ground arith

  pub del_addresses-Still :
      (ifindex : ℕ) (addrs : List PrefixedIpAddr) → Still (del_addresses m ifindex addrs)
  unfolding del_addresses
  del_addresses-Still ifindex [] = λ self s. refl
  del_addresses-Still ifindex (addr ∷ addrs) =
      then-Still (lift netlink_query (m.del_address ifindex addr)) (del_addresses m ifindex addrs)
        (lift-Still netlink_query (m.del_address ifindex addr)) (del_addresses-Still ifindex addrs)

  pub mod_addresses-Still :
      {T : Type 0} (convert : T → PrefixedIpAddr) (ifindex : ℕ) (modification : Modification T)
      (addrs : List PrefixedIpAddr)
      → Still (mod_addresses m convert ifindex modification addrs)
  unfolding mod_addresses
  mod_addresses-Still convert ifindex (Modification.append ip) addrs =
      lift-Still netlink_query (m.add_address ifindex (convert ip))
  mod_addresses-Still convert ifindex (Modification.remove ip) addrs =
      lift-Still netlink_query (m.del_address ifindex (convert ip))
  mod_addresses-Still convert ifindex (Modification.replace ip) addrs =
      then-Still (del_addresses m ifindex addrs)
        (lift netlink_query (m.add_address ifindex (convert ip)))
        (del_addresses-Still ifindex addrs)
        (lift-Still netlink_query (m.add_address ifindex (convert ip)))
  mod_addresses-Still convert ifindex Modification.clear addrs = del_addresses-Still ifindex addrs
  mod_addresses-Still convert ifindex Modification.no_change addrs = λ self s. refl

  pub mod_ip-Still :
      {T : Type 0} (convert : T → PrefixedIpAddr) (ifindex : ℕ) (modification : Modification T)
      (addrs : List PrefixedIpAddr)
      → Still (mod_ip m convert ifindex modification addrs)
  unfolding mod_ip
  mod_ip-Still convert ifindex modification addrs =
      then-Still (lift (λ e. other (no_modifier e)) m.new_modifier)
        (mod_addresses m convert ifindex modification addrs)
        (lift-Still (λ e. other (no_modifier e)) m.new_modifier)
        (mod_addresses-Still convert ifindex modification addrs)

  pub mod_oper_state-Still :
      (name : String) (oper_state : Modification Bool) → Still (mod_oper_state m name oper_state)
  unfolding mod_oper_state
  mod_oper_state-Still name oper_state self s = ground arith

  pub set_ip-Still :
      (same_ip : Bool) (index : ℕ) (old new : Option PrefixedIpv4Addr)
      (otherwise : Action m.State (Error m) (Unit {0}))
      → same_ip ≡ false
      → Still (set_ip m same_ip index old new otherwise)
  unfolding set_ip del_old_ip add_new_ip
  set_ip-Still same_ip index old new otherwise e self s = ground arith

  pub persist_policy-Still :
      (name : String) (slaac dhcpv4 : Modification Bool)
      → Still (persist_policy m name slaac dhcpv4)
  unfolding persist_policy
  persist_policy-Still name slaac dhcpv4 self s = ground arith

  pub persist_or_destroy-Still :
      (name : String) (creation : LinkOptions) → Still (persist_or_destroy m name creation)
  unfolding persist_or_destroy persist_creation load_or_default
  persist_or_destroy-Still name creation self s = ground arith

  pub remove_persisted_creation-Still : (name : String) → Still (remove_persisted_creation m name)
  unfolding remove_persisted_creation
  remove_persisted_creation-Still name self s = ground arith

  query_again-Still :
      (create : List InterfaceInfo → m.State → Bool × m.State) (interfaces : List InterfaceInfo)
      → Still (query_again m create interfaces)
  unfolding query_again
  query_again-Still create interfaces self s = ground arith

  pub report-Still : Still (report m)
  unfolding report
  report-Still self s = ground (arith, lift-Still netlink_query m.new_query self s)
