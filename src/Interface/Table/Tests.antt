-- ===== src/Interface/Table/Tests.antt =====
-- Runs of the table of network-daemon/src/interface/table.rs.
use network_daemon.Prelude.{
  ◌≡◌, ◌≢◌, refl, none, some, List, [], ◌∷◌, ℕ_key, string_key, arith, String_discrete,
}
use network_daemon.Prelude.Map
use network_daemon.Prelude.Map.{has}
use network_daemon.Interface.Info
use network_daemon.Interface.Info.{
  InterfaceInfo, InterfaceType, ConnectionState, InterfaceType_key, ConnectionState_key,
}
use network_daemon.Interface.Table.{InterfaceTable, empty, insert, remove, get, get_by_index}
use network_daemon.Interface.Table.Indexed.{IsIndexed, IsFree}
use network_daemon.Interface.Table.Clashes.{
  insert_all, AllApart, insert_all-empty, remove-insert_loses_index,
}

abbrev eth0 : InterfaceInfo
eth0 = record (Info.new 1 "eth0") {
  state = ConnectionState.connected;
  interface_type = InterfaceType.ethernet;
}

abbrev wlan0 : InterfaceInfo
wlan0 = record (Info.new 2 "wlan0") {
  state = ConnectionState.disconnected;
  interface_type = InterfaceType.wlan;
  parent = some "ath0";
}

-- wlan0 once it is connected.
abbrev wlan0_online : InterfaceInfo
wlan0_online = record wlan0 { state = ConnectionState.connected }

-- An interface that takes the index of eth0.
abbrev em0 : InterfaceInfo
em0 = record (Info.new 1 "em0") { interface_type = InterfaceType.ethernet }

abbrev infos : List InterfaceInfo
infos = eth0 ∷ wlan0 ∷ []

apart_eth_wlan : eth0.name ≢ wlan0.name
apart_eth_wlan e = cc

infos-AllApart : AllApart infos
infos-AllApart = ((apart_eth_wlan, omega arith, tt), (tt, tt))

abbrev table : InterfaceTable
table = insert_all empty infos

table-IsIndexed : IsIndexed table
table-IsIndexed = (insert_all-empty infos infos-AllApart).0

wlan0-IsFree : IsFree 2 "wlan0" table
unfolding get
wlan0-IsFree n other = ground (arith, (insert_all-empty infos infos-AllApart).1 n)

wlan0_found : get table "wlan0" ≡ some wlan0
unfolding get Map.get insert_all insert Map.insert String_discrete
wlan0_found = refl

eth0_found : get table "eth0" ≡ some eth0
unfolding get Map.get insert_all insert Map.insert String_discrete
eth0_found = refl

apart_names : eth0.name ≢ em0.name
apart_names e = cc

remove-insert_loses_index_example :
    (get_by_index (insert table em0) 1 ≡ some em0)
    × (get (remove (insert table em0) "eth0").0 "em0" ≡ some em0)
    × (get_by_index (remove (insert table em0) "eth0").0 1 ≡ none)
remove-insert_loses_index_example =
    remove-insert_loses_index table eth0 em0 eth0_found refl apart_names
