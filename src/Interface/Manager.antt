-- ===== src/Interface/Manager.antt =====
-- network-daemon/src/interface/mod.rs: the actor that keeps the table of interfaces. A method takes and
-- returns the actor and the state of the machine; what it wrote before an error stays written.
pub mod Restore
pub mod Keeps
mod Tests
pub mod Refresh
pub mod Persist
pub mod Actions
pub mod Handler
pub mod Messages
use Prim.Native.String.{String}
use network_daemon.Prelude.{ℕ, Option, none, some, Result, ok, err}
use network_daemon.Broadcast
use network_daemon.Broadcast.{Broadcast}
use network_daemon.Config.{ConfigError}
use network_daemon.Interface.Info.{InterfaceInfo, InterfaceType, InterfaceManagerEvent}
use network_daemon.Interface.Machine.{Machine}
use network_daemon.Interface.Table
use network_daemon.Interface.Table.{InterfaceTable}

pub record InterfaceManager : Type 0 where
  pub table : InterfaceTable
  pub event_broadcaster : Broadcast InterfaceManagerEvent

-- The texts of `InterfaceError::Other`.
pub data Message (NetlinkQueryError : Type 0) : Type 0 where
  interface_exists : String → Message NetlinkQueryError
  wlan_options no_wireless_device bridge_options lagg_options : Message NetlinkQueryError
  vlan_parent_and_tag vlan_options : Message NetlinkQueryError
  provided_by_kernel : InterfaceType → Message NetlinkQueryError
  load_failed : ConfigError → Message NetlinkQueryError
  persist_failed : String → ConfigError → Message NetlinkQueryError
  persist_deletion_failed : String → ConfigError → Message NetlinkQueryError
  persist_policy_failed : String → ConfigError → Message NetlinkQueryError
  no_modifier : NetlinkQueryError → Message NetlinkQueryError

-- The errors that the manager returns.
pub data InterfaceError (IfconfigError NetlinkQueryError : Type 0) : Type 0 where
  netlink_query : NetlinkQueryError → InterfaceError IfconfigError NetlinkQueryError
  ifconfig : IfconfigError → InterfaceError IfconfigError NetlinkQueryError
  not_found : String → InterfaceError IfconfigError NetlinkQueryError
  other : Message NetlinkQueryError → InterfaceError IfconfigError NetlinkQueryError

-- `InterfaceManager::new`.
abbrev pub new : InterfaceManager
new = record { table = Table.empty; event_broadcaster = Broadcast.new }

unfoldable pub subscribe : InterfaceManager → InterfaceManager × ℕ
subscribe self =
    let (event_broadcaster, receiver) = Broadcast.subscribe self.event_broadcaster in
    (record self { event_broadcaster = event_broadcaster }, receiver)

unfoldable pub broadcast : InterfaceManagerEvent → InterfaceManager → InterfaceManager
broadcast event self = record self {
  event_broadcaster = (Broadcast.broadcast event self.event_broadcaster).0;
}

unfoldable pub add_interface : InterfaceInfo → InterfaceManager → InterfaceManager
add_interface info self = record self { table = Table.insert self.table info }

unfoldable pub get_interface : InterfaceManager → String → Option InterfaceInfo
get_interface self name = Table.get self.table name

unfoldable pub get_interface_by_index : InterfaceManager → ℕ → Option InterfaceInfo
get_interface_by_index self ifindex = Table.get_by_index self.table ifindex

-- A method on a machine with the states `S`, that may fail with an `E`.
abbrev pub Action : Type 0 → Type 0 → Type 0 → Type 0
Action S E A = InterfaceManager → S → Result E A × InterfaceManager × S

module _ {S E : Type 0} where
  infixl 5 ◌>>=◌ ◌>>◌
  abbrev pub ◌>>=◌ : {A B : Type 0} → Action S E A → (A → Action S E B) → Action S E B
  ◌>>=◌ f k self s =
      let (r, self', s') = f self s in elim r [ ok a ↦ k a self' s' | err e ↦ (err e, self', s') ]

  abbrev pub ◌>>◌ : {A B : Type 0} → Action S E A → Action S E B → Action S E B
  f >> g = f >>= λ _. g

  abbrev pub pure : {A : Type 0} → A → Action S E A
  pure a self s = (ok a, self, s)

  abbrev pub raise : {A : Type 0} → E → Action S E A
  raise e self s = (err e, self, s)

  -- A call of the machine, with its error converted.
  abbrev pub lift : {A F : Type 0} → (F → E) → (S → Result F A × S) → Action S E A
  lift convert call self s =
      let (r, s') = call s in
      elim r [ ok a ↦ (ok a, self, s') | err e ↦ (err (convert e), self, s') ]

  abbrev pub gets : {A : Type 0} → (InterfaceManager → A) → Action S E A
  gets f self s = (ok (f self), self, s)

  abbrev pub modify : (InterfaceManager → InterfaceManager) → Action S E (Unit {0})
  modify f self s = (ok tt, f self, s)

  -- `Option::ok_or`, followed by `?`.
  abbrev pub or_raise : {A : Type 0} → Option A → E → Action S E A
  or_raise none e = raise e
  or_raise (some a) e = pure a

abbrev pub Error : Machine → Type 0
Error m = InterfaceError m.IfconfigError m.NetlinkQueryError

module _ (m : Machine) where
  unfoldable pub remove_interface : String → Action m.State (Error m) (Unit {0})
  remove_interface name self s =
      let (table, removed) = Table.remove self.table name in
      or_raise (elim removed [ none ↦ none | some _ ↦ some tt ]) (not_found name)
        (record self { table = table }) s
