-- ===== src/Route/Tests.antt =====
-- Runs of the code under network-daemon/src/route on small tables, with routes that are compared by
-- their prefix lengths.
use Prim.Native.Nat.{compare, Ordering}
use network_daemon.Prelude.{
  ℕ, ◌≡◌, refl, Option, none, some, List, [], ◌∷◌, arith, if◌then◌else◌, ℕ_key,
}
use network_daemon.Prelude.Map
use network_daemon.Prelude.Map.{has}
use network_daemon.Ip.{
  IpAddr, PrefixedIpAddr, PrefixedIpAddr_key, PrefixedIpv4Addr_key, PrefixedIpv6Addr_key,
  into_prefixed,
}
use network_daemon.Route.Api.{RouteApi}
use network_daemon.Route.Table
use network_daemon.Route.Table.{RouteTable, insert_at, remove_by_oif, insert, find}
use network_daemon.Route.Table.Laws.{key}
use network_daemon.Route.Table.Indexed.{ByPrefix, IsIndexed, empty-IsIndexed, insert_at-IsIndexed}
use network_daemon.Route.Table.Interfaces.{remove_by_oif_lem, second_route_dropped}

pub record TestRoute : Type 0 where
  pub destination : IpAddr
  pub prefix : ℕ
  pub gateway : Option IpAddr
  pub if_index : Option ℕ

pub compare_refl : (n : ℕ) → compare n n ≡ Ordering.eq
compare_refl n = ground arith

abbrev pub test_api : RouteApi
test_api = record {
  Route = TestRoute;
  new = λ d p. record { destination = d; prefix = p; gateway = none; if_index = none };
  with_gateway = λ r g. record r { gateway = some g };
  with_if_index = λ r i. record r { if_index = some i };
  destination = λ r. r.destination;
  prefix = λ r. r.prefix;
  gateway = λ r. r.gateway;
  if_index = λ r. r.if_index;
  cmp = λ r s. compare r.prefix s.prefix;
  destination-new = λ d p. refl;
  prefix-new = λ d p. refl;
  destination-with_gateway = λ r g. refl;
  prefix-with_gateway = λ r g. refl;
  gateway-with_gateway = λ r g. refl;
  destination-with_if_index = λ r i. refl;
  prefix-with_if_index = λ r i. refl;
  gateway-with_if_index = λ r i. refl;
  if_index-with_if_index = λ r i. refl;
  cmp_refl = λ r. compare_refl r.prefix;
}

pub test_order : ByPrefix test_api
test_order = λ r s. refl

-- 10.0.0.0/24 on interface 1, the same network on interface 2, and a default route on interface 1.
abbrev pub lan_1 : TestRoute
lan_1 = record {
  destination = IpAddr.v4 0x0a000000;
  prefix = 24;
  gateway = none;
  if_index = some 1;
}

abbrev pub lan_2 : TestRoute
lan_2 = record {
  destination = IpAddr.v4 0x0a000000;
  prefix = 24;
  gateway = none;
  if_index = some 2;
}

abbrev pub default_1 : TestRoute
default_1 = record {
  destination = IpAddr.v4 0;
  prefix = 0;
  gateway = some (IpAddr.v4 0x0a000001);
  if_index = some 1;
}

abbrev pub lan_table : RouteTable TestRoute
lan_table = insert_at test_api (Table.empty test_api) 1 (key test_api lan_1) lan_1

abbrev pub full_table : RouteTable TestRoute
full_table = insert_at test_api lan_table 1 (key test_api default_1) default_1

pub lan_table-IsIndexed : IsIndexed test_api lan_table
lan_table-IsIndexed =
    insert_at-IsIndexed test_api test_order (Table.empty test_api) 1 lan_1 refl
      (empty-IsIndexed test_api)

pub full_table-IsIndexed : IsIndexed test_api full_table
full_table-IsIndexed =
    insert_at-IsIndexed test_api test_order lan_table 1 default_1 refl lan_table-IsIndexed

remove_by_oif_example :
    (t' : RouteTable TestRoute) × (r : Option (List PrefixedIpAddr)) × (remove_by_oif test_api
        full_table 1
      ≡ some (t', r))
    × ((a : PrefixedIpAddr)
        → find test_api t' a
          ≡ (if has 1 a full_table.by_oif then none else find test_api full_table a))
    × ((a : PrefixedIpAddr) (s : TestRoute)
        → ¬ ((find test_api t' a ≡ some (s ∷ [])) × (s.if_index ≡ some 1)))
remove_by_oif_example = remove_by_oif_lem test_api full_table 1 full_table-IsIndexed

absent_lan : find test_api (Table.empty test_api) (key test_api lan_1) ≡ none
unfolding find Map.get into_prefixed
absent_lan = refl

second_route_dropped_example :
    (t1 : RouteTable TestRoute) × (insert test_api (Table.empty test_api) lan_1 ≡ some t1)
    × (t2 : RouteTable TestRoute) × (insert test_api t1 lan_2 ≡ some t2)
    × (find test_api t2 (key test_api lan_1) ≡ some (lan_1 ∷ []))
    × (t3 : RouteTable TestRoute) × (addrs : Option (List PrefixedIpAddr)) × (remove_by_oif test_api
          t2 2
        ≡ some (t3, addrs))
    × (find test_api t3 (key test_api lan_1) ≡ none)
second_route_dropped_example =
    second_route_dropped test_api test_order (Table.empty test_api) lan_1 lan_2 1 2
      (empty-IsIndexed test_api) absent_lan refl refl refl
