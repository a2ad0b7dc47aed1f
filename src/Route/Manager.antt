-- ===== src/Route/Manager.antt =====
-- network-daemon/src/route/mod.rs: the actor that answers interface events and route changes.
-- What the actor asks of the kernel is the list of its requests, in order; the code ignores their
-- results, and learns of their effect by later route changes. `HashMap` iteration gives any order: the
-- model takes the one of its list.
pub mod Requests
pub mod Defaults
pub mod Invariant
pub mod Changes
pub mod Restored
mod Tests
use network_daemon.Prelude.{
  ℕ, ◌≡◌, Option, none, some, List, [], ◌∷◌, ◌++◌, map, Bool, true, false, not, if◌then◌else◌,
  ℕ_key, ◌===◌,
}
use network_daemon.Ip.{
  IpAddr, PrefixedIpv4Addr, PrefixedIpv6Addr, PrefixedIpv4Addr_key, PrefixedIpv6Addr_key, net_id_v4,
  net_id_v6, into_prefixed,
}
use network_daemon.Interface.Info.{
  InterfaceInfo, InterfaceManagerEvent, interface_added, interface_removed, interface_changed,
  ConnectionState, ConnectionState_key,
}
use network_daemon.Route.Api.{RouteApi}
use network_daemon.Route.Backup
use network_daemon.Route.Backup.{BackupRouteTable, available_gateways, net_outputs}
use network_daemon.Route.Table
use network_daemon.Route.Table.{RouteTable, find_first}

-- What the actor asks the kernel to do.
pub data Request (Route : Type 0) : Type 0 where
  add : Route → Request Route
  delete : Route → Request Route

pub data RouteChange (Route : Type 0) : Type 0 where
  add : Route → RouteChange Route
  delete : Route → RouteChange Route
  change : Route → RouteChange Route

-- `kameo::message::StreamMessage`.
pub data StreamMessage (A : Type 0) : Type 0 where
  started : StreamMessage A
  next : A → StreamMessage A
  finished : StreamMessage A

pub record RouteManager (Route : Type 0) : Type 0 where
  pub v4_backup : BackupRouteTable PrefixedIpv4Addr
  pub v6_backup : BackupRouteTable PrefixedIpv6Addr
  pub route_table : RouteTable Route

module _ (api : RouteApi) where
  open api use {Route, destination, prefix, new, with_gateway, with_if_index}

  abbrev pub default_route : IpAddr → IpAddr → ℕ → Route
  default_route dest gw oif = with_if_index (with_gateway (new dest 0) gw) oif

  -- If the table finds no default route, the request for one through the first of the gateways.
  unfoldable pub default_v4 :
      Option (List Route) → List (PrefixedIpv4Addr × ℕ) → List (Request Route)
  default_v4 (some _) _ = []
  default_v4 none [] = []
  default_v4 none ((gw, oif) ∷ _) = add (default_route (IpAddr.v4 0) (IpAddr.v4 gw.addr) oif) ∷ []

  unfoldable pub default_v6 :
      Option (List Route) → List (PrefixedIpv6Addr × ℕ) → List (Request Route)
  default_v6 (some _) _ = []
  default_v6 none [] = []
  default_v6 none ((gw, oif) ∷ _) = add (default_route (IpAddr.v6 0) (IpAddr.v6 gw.addr) oif) ∷ []

  unfoldable pub add_default_rt_if_needed : RouteManager Route → List (Request Route)
  unfolding default_v4 default_v6
  add_default_rt_if_needed self =
      default_v4 (Table.find_default api self.route_table false) (available_gateways self.v4_backup)
      ++ default_v6 (Table.find_default api self.route_table true)
          (available_gateways self.v6_backup)

  -- The interfaces that reach the destination of a route, by the backup table of its family.
  unfoldable pub outputs_of : RouteManager Route → IpAddr → ℕ → Option (List ℕ)
  outputs_of self (IpAddr.v4 ip) p =
      net_outputs self.v4_backup (record { addr = ip; prefix_len = p })
  outputs_of self (IpAddr.v6 ip) p =
      net_outputs self.v6_backup (record { addr = ip; prefix_len = p })

  -- The route that is added back for a dead one, through another interface.
  unfoldable pub add_back : Route → ℕ → Option (List ℕ) → List (Request Route)
  add_back rt id none = []
  add_back rt id (some outputs) = elim (find_first (λ oif. not (oif === id)) outputs) [
    | none ↦ []
    | some output ↦ add (with_if_index (new (destination rt) (prefix rt)) output) ∷ []
  ]

  -- The loop of `dead_rt_cleanup`.
  unfoldable pub cleanup_routes : RouteManager Route → ℕ → List Route → List (Request Route)
  unfolding outputs_of add_back
  cleanup_routes self id [] = []
  cleanup_routes self id (rt ∷ rts) =
      delete rt
      ∷ (add_back rt id (outputs_of self (destination rt) (prefix rt))
          ++ cleanup_routes self id rts)

  unfoldable pub dead_rt_cleanup : RouteManager Route → InterfaceInfo → List (Request Route)
  unfolding cleanup_routes
  dead_rt_cleanup self info = elim (Table.find_by_oif api self.route_table info.id) [
    | none ↦ []
    | some rts ↦ cleanup_routes self info.id rts
  ]

  unfoldable pub insert_v4 :
      InterfaceInfo → BackupRouteTable PrefixedIpv4Addr → BackupRouteTable PrefixedIpv4Addr
  insert_v4 info backup = elim info.gateway_ipv4 [
    | none ↦ backup
    | some gw ↦ Backup.insert backup info.id gw (map net_id_v4 info.ipv4_addrs)
  ]

  unfoldable pub insert_v6 :
      InterfaceInfo → BackupRouteTable PrefixedIpv6Addr → BackupRouteTable PrefixedIpv6Addr
  insert_v6 info backup = elim info.gateway_ipv6 [
    | none ↦ backup
    | some gw ↦ Backup.insert backup info.id gw (map net_id_v6 info.ipv6_addrs)
  ]

  -- `InterfaceChanged` removes the interface from a backup table if it has no gateway.
  unfoldable pub change_v4 :
      InterfaceInfo → BackupRouteTable PrefixedIpv4Addr → BackupRouteTable PrefixedIpv4Addr
  change_v4 info backup = elim info.gateway_ipv4 [
    | none ↦ Backup.remove backup info.id
    | some gw ↦ Backup.insert backup info.id gw (map net_id_v4 info.ipv4_addrs)
  ]

  unfoldable pub change_v6 :
      InterfaceInfo → BackupRouteTable PrefixedIpv6Addr → BackupRouteTable PrefixedIpv6Addr
  change_v6 info backup = elim info.gateway_ipv6 [
    | none ↦ Backup.remove backup info.id
    | some gw ↦ Backup.insert backup info.id gw (map net_id_v6 info.ipv6_addrs)
  ]

  unfoldable pub forget : RouteManager Route → ℕ → RouteManager Route
  forget self id = record self {
    v4_backup = Backup.remove self.v4_backup id;
    v6_backup = Backup.remove self.v6_backup id;
  }

  -- The handler of `InterfaceManagerEvent`s.
  unfoldable pub handle_event :
      RouteManager Route → InterfaceManagerEvent → RouteManager Route × List (Request Route)
  unfolding insert_v4 insert_v6 change_v4 change_v6 forget
  handle_event self (interface_added info) =
      let self' = record self {
        v4_backup = insert_v4 info self.v4_backup;
        v6_backup = insert_v6 info self.v6_backup;
      } in
      (self', add_default_rt_if_needed self')
  handle_event self (interface_removed info) =
      let self' = forget self info.id in (self', dead_rt_cleanup self' info)
  handle_event self (interface_changed info) =
      let updated = record self {
        v4_backup = change_v4 info self.v4_backup;
        v6_backup = change_v6 info self.v6_backup;
      } in
      let forgotten = forget updated info.id in
      if info.state === ConnectionState.connected
      then (updated, add_default_rt_if_needed updated)
      else (forgotten, dead_rt_cleanup forgotten info ++ add_default_rt_if_needed forgotten)

  unfoldable pub handle_interface :
      RouteManager Route
      → StreamMessage InterfaceManagerEvent
      → RouteManager Route × List (Request Route)
  unfolding handle_event
  handle_interface self (next evt) = handle_event self evt
  handle_interface self started = (self, [])
  handle_interface self finished = (self, [])

  -- The table after a route change.
  unfoldable pub apply_change : RouteTable Route → RouteChange Route → Option (RouteTable Route)
  apply_change table (add route) = Table.insert api table route
  apply_change table (delete route) =
      elim (Table.remove api table (into_prefixed (destination route) (prefix route))) [
        | none ↦ none
        | some (table', _) ↦ some table'
      ]
  apply_change table (change route) =
      elim (Table.remove api table (into_prefixed (destination route) (prefix route))) [
        | none ↦ none
        | some (table', _) ↦ Table.insert api table' route
      ]

  -- The handler of `RouteChange`s; the end of the stream is a panic.
  unfoldable pub handle_route :
      RouteManager Route
      → StreamMessage (RouteChange Route)
      → Option (RouteManager Route × List (Request Route))
  unfolding apply_change
  handle_route self (next rc) = elim (apply_change self.route_table rc) [
    | none ↦ none
    | some table ↦
        let self' = record self { route_table = table } in
        some (self', add_default_rt_if_needed self')
  ]
  handle_route self started = some (self, [])
  handle_route self finished = none

  -- The loop of `on_start` over the routes of the kernel.
  unfoldable pub load_routes : RouteTable Route → List Route → Option (RouteTable Route)
  load_routes table [] = some table
  load_routes table (route ∷ routes) = elim (Table.insert api table route) [
    | none ↦ none
    | some table' ↦ load_routes table' routes
  ]

  unfoldable pub on_start : List Route → Option (RouteManager Route)
  unfolding load_routes
  on_start routes = elim (load_routes (Table.empty api) routes) [
    | none ↦ none
    | some table ↦
        some (record { v4_backup = Backup.empty; v6_backup = Backup.empty; route_table = table })
  ]
