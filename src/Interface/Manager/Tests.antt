-- ===== src/Interface/Manager/Tests.antt =====
-- A machine with which the theorems about network-daemon/src/interface/mod.rs are applied: a kernel that
-- makes every link but a VLAN without its parent, and reports two interfaces of its own.
use Prim.Native.String.{String}
use network_daemon.Prelude.{
  ℕ, ◌≡◌, ◌≢◌, refl, Option, none, some, List, [], ◌∷◌, ◌++◌, map, Bool, true, false, ok, err, ◌⊎◌,
  inl, length, string_key, String_discrete, ◌===◌, if◌then◌else◌, arith,
}
use mathlib.Core.Path.{subst}
use network_daemon.Prelude.Set
use network_daemon.Prelude.Map
use network_daemon.Broadcast.{Broadcast, broadcast}
use network_daemon.Broadcast.Delivered.{delivered, received, broadcast_lem}
use network_daemon.Config.{DaemonConfig, ConfigError, default_config}
use network_daemon.Interface.Info
use network_daemon.Interface.Info.{
  InterfaceInfo, InterfaceManagerEvent, interface_added, interface_removed, interface_changed,
  ConnectionState, InterfaceType, InterfaceInfo_key, ConnectionState_key, InterfaceType_key,
}
use network_daemon.Interface.Link.{LinkOptions}
use network_daemon.Interface.Machine.{Machine}
use network_daemon.Interface.Table
use network_daemon.Interface.Table.{InterfaceTable, empty}
use network_daemon.Interface.Table.Indexed.{IsIndexed, IsFree}
use network_daemon.Interface.Table.Kept.{own-IsFree}
use network_daemon.Interface.Table.Clashes.{AllApart, named_in, insert_all, insert_all-empty}
use network_daemon.Interface.Manager.{InterfaceManager}
use network_daemon.Interface.Manager.Restore.{create_links}
use network_daemon.Interface.Manager.Restore.Rounds.{
  Creates, create_links_returns, create_links_complete,
}
use network_daemon.Interface.Manager.Refresh.{replace_interfaces}
use network_daemon.Interface.Manager.Refresh.Replaced.{replace_interfaces_lem}
use network_daemon.Interface.Manager.Refresh.Distinct.{ReportsApart}
use network_daemon.Interface.Manager.Persist.{
  persist_creation, remove_persisted_creation, set_creation,
}
use network_daemon.Interface.Manager.Persist.Stored.{
  SavesBack, settings, remove_persisted_creation-persist_creation,
}
use network_daemon.Interface.Manager.Actions.{mark_as_unmanaged, success}
use network_daemon.Interface.Manager.Handler.{handle_update}
use network_daemon.Interface.Manager.Messages.{handle}
use network_daemon.Interface.Manager.Messages.Invariant.{handle-IsIndexed}
use network_daemon.Interface.Manager.Messages.Events.{
  handle_update-interface_changed, handle_update-interface_removed,
}

-- The names of the links that were made, and the file, if there is one.
record Host : Type 0 where
  links : List String
  file : Option DaemonConfig
  answers : Bool

abbrev eth0 : InterfaceInfo
eth0 = Info.new 1 "eth0"

abbrev em0 : InterfaceInfo
em0 = Info.new 2 "em0"

abbrev make : LinkOptions → Host → Bool
make (LinkOptions.vlan parent tag) host = Set.contains parent host.links
make _ host = true

abbrev host_machine : Machine
host_machine = record {
  State = Host;
  IfconfigError = Unit {0};
  NetlinkQueryError = Unit {0};
  create_link = λ name options host.
      if make options host
      then (ok tt, record host { links = Set.insert name host.links })
      else (err tt, host);
  destroy_link = λ name host. (ok tt, record host { links = Set.remove name host.links });
  set_link_status = λ name status host. (ok tt, host);
  set_slaac_state = λ name state host. (ok tt, host);
  wireless_devices = λ host. (ok [], host);
  new_query = λ host. (if host.answers then ok tt else err tt, host);
  new_modifier = λ host. (ok tt, host);
  query_links = λ host. (ok (eth0 ∷ em0 ∷ []), host);
  query_link = λ index host. (ok none, host);
  del_link = λ index host. (ok tt, host);
  add_address = λ index addr host. (ok tt, host);
  del_address = λ index addr host. (ok tt, host);
  load = λ host. elim host.file [ none ↦ err ConfigError.not_found | some config ↦ ok config ];
  save = λ config host. (ok tt, record host { file = some config });
}

abbrev host : Host
host = record { links = "em0" ∷ []; file = none; answers = true }

abbrev silent : Host
silent = record { links = []; file = none; answers = false }

two_messages : Broadcast ℕ
two_messages = record {
  senders =
      record { receiver = 0; messages = 5 ∷ []; open_end = false }
      ∷ record { receiver = 1; messages = 6 ∷ []; open_end = true }
      ∷ [];
  receivers = 2;
}

broadcast_example : broadcast 7 two_messages ≡ (
  record two_messages { senders = delivered 7 two_messages.senders },
  length (delivered 7 two_messages.senders),
)
broadcast_example = broadcast_lem 7 two_messages

-- A VLAN that stands before its parent, and one without a parent.
abbrev pending : List (String × LinkOptions)
pending =
    ("vlan1", LinkOptions.vlan "bridge0" 7)
    ∷ ("bridge0", LinkOptions.bridge [])
    ∷ ("vlan2", LinkOptions.vlan "none0" 8)
    ∷ []

create_links_returns_example : create_links host_machine 4 pending ("em0" ∷ []) false host ≢ none
create_links_returns_example =
    create_links_returns host_machine 4 pending ("em0" ∷ []) false host (omega arith)

abbrev made : String → Host → Bool
made name h = Set.contains name h.links

host-Creates : Creates host_machine made
host-Creates = record {
  created = λ name options s u e. ground (arith, Set.contains-insert name name s.links);
  stays = λ n name options s e. ground (arith, Set.contains-insert n name s.links);
  refused = λ name options s x e. ground arith;
}

made_first : (n : String) → Set.contains n ("em0" ∷ []) ≡ true → made n host ≡ true
made_first n h = h

create_links_complete_example :
    (made "vlan1" (record host { links = "em0" ∷ "bridge0" ∷ "vlan1" ∷ [] }) ≡ true)
    ⊎ ((e : Unit) × ((host_machine.create_link "vlan1"
            (LinkOptions.vlan "bridge0" 7)
            (record host { links = "em0" ∷ "bridge0" ∷ "vlan1" ∷ [] })).0
          ≡ err e))
unfolding create_links Set.is_empty Set.contains String_discrete Set.insert
create_links_complete_example =
    create_links_complete host_machine made host-Creates "vlan1" (LinkOptions.vlan "bridge0" 7) 4
      pending ("em0" ∷ []) false host
      (true, record host { links = "em0" ∷ "bridge0" ∷ "vlan1" ∷ [] }) refl made_first (inl refl)

eth0-AllApart : AllApart (eth0 ∷ em0 ∷ [])
eth0-AllApart = (((λ e. cc), (λ e. omega arith), tt), (tt, tt))

abbrev subscribed : InterfaceManager
subscribed = record {
  table = empty;
  event_broadcaster = record {
    senders = record { receiver = 0; messages = []; open_end = true } ∷ [];
    receivers = 1;
  };
}

replace_interfaces_example :
    let self' = replace_interfaces (eth0 ∷ em0 ∷ []) subscribed in
    IsIndexed self'.table
    × ((n : String) → Table.get self'.table n ≡ named_in n (eth0 ∷ em0 ∷ []))
    × ((removed : List InterfaceInfo) × (added : List InterfaceInfo) × (received 0
            self'.event_broadcaster.senders
          ≡ some (map interface_removed removed ++ map interface_added added))
        × ((i : InterfaceInfo)
            → Set.contains i removed ≡ (
                if Set.contains i (eth0 ∷ em0 ∷ [])
                then false
                else Set.contains i (Table.all empty)))
        × ((i : InterfaceInfo)
            → Set.contains i added ≡ (
                if Set.contains i (Table.all empty)
                then false
                else Set.contains i (eth0 ∷ em0 ∷ []))))
replace_interfaces_example =
    replace_interfaces_lem (eth0 ∷ em0 ∷ []) subscribed 0 [] eth0-AllApart refl

host-ReportsApart : ReportsApart host_machine
host-ReportsApart s l e = let same : (eth0 ∷ em0 ∷ []) ≡ l = cc in subst AllApart same eth0-AllApart

abbrev filled : InterfaceManager
filled = record subscribed { table = insert_all empty (eth0 ∷ em0 ∷ []) }

filled-IsIndexed : IsIndexed filled.table
filled-IsIndexed = (insert_all-empty (eth0 ∷ em0 ∷ []) eth0-AllApart).0

handle-IsIndexed_example :
    IsIndexed (handle host_machine (mark_as_unmanaged "em0") filled host).1.table
handle-IsIndexed_example =
    handle-IsIndexed host_machine host-ReportsApart (mark_as_unmanaged "em0") filled host
      filled-IsIndexed tt

em0_at : Table.get filled.table "em0" ≡ some em0
unfolding Table.get insert_all Table.insert Map.insert Map.get String_discrete
em0_at = refl

em0-IsFree : IsFree 2 "em0" filled.table
unfolding Table.get
em0-IsFree n p = own-IsFree filled.table filled-IsIndexed "em0" em0 em0_at n p

abbrev em0_up : InterfaceInfo
em0_up = record em0 { state = ConnectionState.up; dhcpv4_enabled = false }

handle_update-interface_changed_example :
    let self' = (handle_update host_machine (interface_changed em0_up) filled host).1 in
    (new : InterfaceInfo) × ((n : String)
      → Table.get self'.table n ≡ (if "em0" === n then some new else Table.get filled.table n))
    × (received 0 self'.event_broadcaster.senders ≡ some (interface_changed new ∷ []))
    × (new.ipv4_addrs ≡ [])
    × (new.ipv6_addrs ≡ [])
    × (new.gateway_ipv4 ≡ none)
    × (new.gateway_ipv6 ≡ none)
    × (new.dhcpv4_enabled ≡ true)
    × (new.slaac_enabled ≡ false)
    × (new.state ≡ ConnectionState.up)
unfolding Info.ConnectionState_discrete Info.InterfaceType_discrete
handle_update-interface_changed_example =
    handle_update-interface_changed host_machine em0_up em0 filled host 0 [] filled-IsIndexed
      em0-IsFree em0_at refl

handle_update-interface_removed_example :
    let (answer, self', s') = handle_update host_machine (interface_removed em0) filled host in
    (answer ≡ ok success)
    × ((n : String)
        → Table.get self'.table n ≡ (if "em0" === n then none else Table.get filled.table n))
    × (self'.event_broadcaster ≡ filled.event_broadcaster)
handle_update-interface_removed_example =
    handle_update-interface_removed host_machine em0 filled host filled-IsIndexed

host-SavesBack : SavesBack host_machine
host-SavesBack config s u e = refl

remove_persisted_creation-persist_creation_example :
    let s' = (persist_creation host_machine "bridge0" (LinkOptions.bridge []) filled host).2 in
    (config' : DaemonConfig) × (host_machine.load
        (remove_persisted_creation host_machine "bridge0" filled s').2
      ≡ ok config')
    × (config'.networks ≡ [])
    × ((n : String)
        → Map.get n config'.interfaces ≡ (
            if "bridge0" === n
            then some (set_creation none (settings "bridge0" default_config))
            else none))
unfolding persist_creation remove_persisted_creation Map.get Map.insert String_discrete
remove_persisted_creation-persist_creation_example =
    remove_persisted_creation-persist_creation host_machine host-SavesBack "bridge0"
      (LinkOptions.bridge []) filled host refl refl
