-- ===== src/Route/Manager/Tests.antt =====
-- Runs of the actor of network-daemon/src/route/mod.rs: an interface that goes while another reaches
-- its network.
use network_daemon.Prelude.{
  ℕ, ◌≡◌, ◌≢◌, refl, none, some, List, [], ◌∷◌, true, false, In, if◌then◌else◌, ℕ_key, ◌===◌, arith,
  ℕ_discrete,
}
use network_daemon.Prelude.Map
use network_daemon.Prelude.Set
use network_daemon.Prelude.Sorted
use network_daemon.Ip.{
  PrefixedIpAddr, PrefixedIpAddr_key, PrefixedIpv4Addr_key, PrefixedIpv6Addr_key,
  PrefixedIpv4Addr_discrete, into_prefixed, net_id_v4,
}
use network_daemon.Interface.Info
use network_daemon.Interface.Info.{
  InterfaceInfo, InterfaceType, ConnectionState, ConnectionState_key, InterfaceManagerEvent,
  interface_added, interface_removed, interface_changed,
}
use network_daemon.Route.Backup
use network_daemon.Route.Backup.{available_gateways}
use network_daemon.Route.Backup.History.{empty-IsConsistent}
use network_daemon.Route.Table
use network_daemon.Route.Table.{RouteTable}
use network_daemon.Route.Table.Laws.{key}
use network_daemon.Route.Table.Indexed.{IsIndexed}
use network_daemon.Route.Manager.{
  Request, RouteManager, add, change, add_default_rt_if_needed, dead_rt_cleanup, outputs_of,
  handle_event, apply_change,
}
use network_daemon.Route.Manager.Requests.{All, IsCleanup, dead_rt_cleanup-IsCleanup}
use network_daemon.Route.Manager.Defaults.{IsDefault, add_default_rt_if_needed-IsDefault}
use network_daemon.Route.Manager.Invariant.{
  IsValid, Forgotten, handle_event-IsValid, handle_event-Forgotten,
}
use network_daemon.Route.Manager.Changes.{expected, apply_change-IsIndexed}
use network_daemon.Route.Manager.Restored.{replacement, dead_rt_cleanup_restores}
use network_daemon.Route.Tests.{
  TestRoute, test_api, test_order, lan_1, lan_2, default_1, full_table, full_table-IsIndexed,
}

abbrev start : RouteManager TestRoute
start = record { v4_backup = Backup.empty; v6_backup = Backup.empty; route_table = full_table }

start-IsValid : IsValid test_api start
start-IsValid = record {
  v4 = empty-IsConsistent;
  v6 = empty-IsConsistent;
  routes = full_table-IsIndexed;
}

-- 10.0.0.5/24 and fd00::5/64 on interface 1, 10.0.0.6/24 on interface 2.
abbrev eth0 : InterfaceInfo
eth0 = record (Info.new 1 "eth0") {
  state = ConnectionState.connected;
  interface_type = InterfaceType.ethernet;
  ipv4_addrs = record { addr = 0x0a000005; prefix_len = 24 } ∷ [];
  ipv6_addrs = record { addr = 0xfd000000000000000000000000000005; prefix_len = 64 } ∷ [];
  gateway_ipv4 = some (record { addr = 0x0a000001; prefix_len = 24 });
  gateway_ipv6 = some (record { addr = 0xfd000000000000000000000000000001; prefix_len = 64 });
}

abbrev eth1 : InterfaceInfo
eth1 = record (Info.new 2 "eth1") {
  state = ConnectionState.connected;
  interface_type = InterfaceType.ethernet;
  ipv4_addrs = record { addr = 0x0a000006; prefix_len = 24 } ∷ [];
  gateway_ipv4 = some (record { addr = 0x0a000002; prefix_len = 24 });
}

abbrev one_up : RouteManager TestRoute
one_up = (handle_event test_api start (interface_added eth0)).0

abbrev both_up : RouteManager TestRoute
both_up = (handle_event test_api one_up (interface_added eth1)).0

one_up-IsValid : IsValid test_api one_up
one_up-IsValid = (handle_event-IsValid test_api start (interface_added eth0) start-IsValid).0

both_up-IsValid : IsValid test_api both_up
both_up-IsValid = (handle_event-IsValid test_api one_up (interface_added eth1) one_up-IsValid).0

handle_event-IsValid_example :
    IsValid test_api (handle_event test_api both_up (interface_removed eth0)).0
    × ((handle_event test_api both_up (interface_removed eth0)).0.route_table ≡ both_up.route_table)
handle_event-IsValid_example =
    handle_event-IsValid test_api both_up (interface_removed eth0) both_up-IsValid

handle_event-Forgotten_example :
    Forgotten test_api (handle_event test_api both_up (interface_removed eth0)).0 1
handle_event-Forgotten_example =
    handle_event-Forgotten test_api both_up (interface_removed eth0) both_up-IsValid tt

dead_rt_cleanup-IsCleanup_example :
    All (IsCleanup test_api both_up 1) (dead_rt_cleanup test_api both_up eth0)
dead_rt_cleanup-IsCleanup_example = dead_rt_cleanup-IsCleanup test_api both_up eth0

add_default_rt_if_needed-IsDefault_example :
    All (IsDefault test_api both_up) (add_default_rt_if_needed test_api both_up)
add_default_rt_if_needed-IsDefault_example = add_default_rt_if_needed-IsDefault test_api both_up

lan_found : Table.find test_api both_up.route_table (key test_api lan_1) ≡ some (lan_1 ∷ [])
unfolding Table.find into_prefixed Map.get handle_event Table.insert_at Map.insert
    PrefixedIpv4Addr_discrete Sorted.insert Map.set_or_default
lan_found = refl

abbrev lan_outputs : List ℕ
lan_outputs = 1 ∷ 2 ∷ []

lan_reached : outputs_of test_api both_up lan_1.destination lan_1.prefix ≡ some lan_outputs
unfolding outputs_of Backup.net_outputs Map.get handle_event Backup.insert Backup.insert_nets
    Map.entry_insert Map.insert PrefixedIpv4Addr_discrete net_id_v4 Set.insert Map.set_or_default
lan_reached = refl

two_listed : Set.contains 2 lan_outputs ≡ true
unfolding Set.contains ℕ_discrete
two_listed = refl

dead_rt_cleanup_restores_example :
    (k : ℕ) × In {A = Request TestRoute}
      (add (replacement test_api both_up 1 lan_1 k))
      (dead_rt_cleanup test_api both_up eth0)
dead_rt_cleanup_restores_example =
    dead_rt_cleanup_restores test_api both_up eth0 (key test_api lan_1) lan_1 lan_outputs 2
      both_up-IsValid.routes lan_found refl lan_reached two_listed (omega arith)

-- The state with no route at all, once eth0 is up.
abbrev no_routes : RouteManager TestRoute
no_routes = record one_up { route_table = Table.empty test_api }

no_default_v4 : Table.find_default test_api no_routes.route_table false ≡ none
unfolding Table.find_default Map.get
no_default_v4 = refl

no_default_v6 : Table.find_default test_api no_routes.route_table true ≡ none
unfolding Table.find_default Map.get
no_default_v6 = refl

some_gateway_v4 : available_gateways no_routes.v4_backup ≢ []
unfolding handle_event available_gateways Backup.insert Backup.insert_nets Map.insert
some_gateway_v4 e = cc

some_gateway_v6 : available_gateways no_routes.v6_backup ≢ []
unfolding handle_event available_gateways Backup.insert Backup.insert_nets Map.insert
some_gateway_v6 e = cc

apply_change-IsIndexed_example :
    (t' : RouteTable TestRoute) × (apply_change test_api full_table (change lan_2) ≡ some t')
    × IsIndexed test_api t'
    × ((a : PrefixedIpAddr)
        → Table.find test_api t' a ≡ (
            if key test_api lan_2 === a
            then expected test_api test_order
                (change lan_2)
                (Table.find test_api full_table (key test_api lan_2))
            else Table.find test_api full_table a))
apply_change-IsIndexed_example =
    apply_change-IsIndexed test_api test_order full_table (change lan_2) 2 refl full_table-IsIndexed

lan_named : lan_1.if_index ≢ none
lan_named e = cc

default_named : default_1.if_index ≢ none
default_named e = cc
