-- ===== src/Route/Manager/Invariant.antt =====
-- The tables of the actor of network-daemon/src/route/mod.rs stay well-formed under every message.
use network_daemon.Prelude.{
  ℕ, ◌≡◌, ◌≢◌, refl, none, false, ℕ_key, ◌===◌, arith, inl, inr, Option-cases, Bool-cases, Key,
}
use network_daemon.Prelude.Map
use network_daemon.Prelude.Map.{has}
use network_daemon.Ip.{
  PrefixedIpv4Addr, PrefixedIpv6Addr, PrefixedIpAddr_key, PrefixedIpv4Addr_key,
  PrefixedIpv6Addr_key,
}
use network_daemon.Interface.Info.{
  InterfaceInfo, InterfaceManagerEvent, interface_added, interface_removed, interface_changed,
  ConnectionState, ConnectionState_key,
}
use network_daemon.Route.Api.{RouteApi}
use network_daemon.Route.Backup
use network_daemon.Route.Backup.{BackupRouteTable}
use network_daemon.Route.Backup.Consistent.{
  IsConsistent, insert-IsConsistent, remove-IsConsistent, has-remove,
}
use network_daemon.Route.Table.Indexed.{IsIndexed}
use network_daemon.Route.Manager.{
  RouteManager, insert_v4, insert_v6, change_v4, change_v6, forget, handle_event,
}

module _ (api : RouteApi) where
  open api use {Route, if_index}

  pub record IsValid (self : RouteManager Route) : Type 0 where
    pub v4 : IsConsistent self.v4_backup
    pub v6 : IsConsistent self.v6_backup
    pub routes : IsIndexed api self.route_table

  insert_v4-IsConsistent :
      (info : InterfaceInfo) (t : BackupRouteTable PrefixedIpv4Addr)
      → IsConsistent t
      → IsConsistent (insert_v4 api info t)
  unfolding insert_v4
  insert_v4-IsConsistent info t h = elim (Option-cases info.gateway_ipv4) [
    | inl e ↦ rw (e, insert_v4) h
    | inr (gw, e) ↦ rw (e, insert_v4) (insert-IsConsistent t info.id gw _ h)
  ]

  insert_v6-IsConsistent :
      (info : InterfaceInfo) (t : BackupRouteTable PrefixedIpv6Addr)
      → IsConsistent t
      → IsConsistent (insert_v6 api info t)
  unfolding insert_v6
  insert_v6-IsConsistent info t h = elim (Option-cases info.gateway_ipv6) [
    | inl e ↦ rw (e, insert_v6) h
    | inr (gw, e) ↦ rw (e, insert_v6) (insert-IsConsistent t info.id gw _ h)
  ]

  change_v4-IsConsistent :
      (info : InterfaceInfo) (t : BackupRouteTable PrefixedIpv4Addr)
      → IsConsistent t
      → IsConsistent (change_v4 api info t)
  unfolding change_v4
  change_v4-IsConsistent info t h = elim (Option-cases info.gateway_ipv4) [
    | inl e ↦ rw (e, change_v4) (remove-IsConsistent t info.id h)
    | inr (gw, e) ↦ rw (e, change_v4) (insert-IsConsistent t info.id gw _ h)
  ]

  change_v6-IsConsistent :
      (info : InterfaceInfo) (t : BackupRouteTable PrefixedIpv6Addr)
      → IsConsistent t
      → IsConsistent (change_v6 api info t)
  unfolding change_v6
  change_v6-IsConsistent info t h = elim (Option-cases info.gateway_ipv6) [
    | inl e ↦ rw (e, change_v6) (remove-IsConsistent t info.id h)
    | inr (gw, e) ↦ rw (e, change_v6) (insert-IsConsistent t info.id gw _ h)
  ]

  forget-IsValid :
      (self : RouteManager Route) (id : ℕ) → IsValid self → IsValid (forget api self id)
  unfolding forget
  forget-IsValid self id h = record {
    v4 = remove-IsConsistent self.v4_backup id h.v4;
    v6 = remove-IsConsistent self.v6_backup id h.v6;
    routes = h.routes;
  }

  -- Every interface event keeps the tables of the actor well-formed, and leaves the table of routes as
  -- it is: only the kernel's route changes alter it.
  pub handle_event-IsValid :
      (self : RouteManager Route) (evt : InterfaceManagerEvent)
      → IsValid self
      → IsValid (handle_event api self evt).0
        × ((handle_event api self evt).0.route_table ≡ self.route_table)
  unfolding handle_event
  handle_event-IsValid self (interface_added info) h = (
    record {
      v4 = insert_v4-IsConsistent info self.v4_backup h.v4;
      v6 = insert_v6-IsConsistent info self.v6_backup h.v6;
      routes = h.routes;
    },
    refl,
  )
  handle_event-IsValid self (interface_removed info) h = (forget-IsValid self info.id h, refl)
  handle_event-IsValid self (interface_changed info) h =
      let updated = record self {
        v4_backup = change_v4 api info self.v4_backup;
        v6_backup = change_v6 api info self.v6_backup;
      } in
      let valid : IsValid updated = record {
        v4 = change_v4-IsConsistent info self.v4_backup h.v4;
        v6 = change_v6-IsConsistent info self.v6_backup h.v6;
        routes = h.routes;
      } in
      elim (Bool-cases (info.state === ConnectionState.connected)) [
        | inl e ↦ rw (e, handle_event) (valid, refl)
        | inr e ↦ rw (e, handle_event) (forget-IsValid updated info.id valid, refl)
      ]

  gone :
      {I : Type 0} (t : BackupRouteTable I) (id : ℕ)
      → ⦃key : Key I⦄ → Map.get id (Backup.remove t id).gateways ≡ none
  unfolding Backup.remove
  gone t id = ground (arith, Map.get-remove id id t.gateways)

  -- The interface stands in no backup table, neither as a gateway's nor as the output of a network.
  pub record Forgotten (self : RouteManager Route) (id : ℕ) : Type 0 where
    pub no_gateway_v4 : Map.get id self.v4_backup.gateways ≡ none
    pub no_gateway_v6 : Map.get id self.v6_backup.gateways ≡ none
    pub no_output_v4 : (net : PrefixedIpv4Addr) → has net id self.v4_backup.net_to_id ≡ false
    pub no_output_v6 : (net : PrefixedIpv6Addr) → has net id self.v6_backup.net_to_id ≡ false

  forget-Forgotten :
      (self : RouteManager Route) (id : ℕ) → IsValid self → Forgotten (forget api self id) id
  unfolding forget
  forget-Forgotten self id h = record {
    no_gateway_v4 = gone self.v4_backup id;
    no_gateway_v6 = gone self.v6_backup id;
    no_output_v4 = λ net. ground (arith, has-remove self.v4_backup id id net h.v4);
    no_output_v6 = λ net. ground (arith, has-remove self.v6_backup id id net h.v6);
  }

  abbrev pub info_of : InterfaceManagerEvent → InterfaceInfo
  info_of (interface_added info) = info
  info_of (interface_removed info) = info
  info_of (interface_changed info) = info

  -- The event says that the interface is gone, or not connected.
  abbrev pub IsDown : InterfaceManagerEvent → Type 0
  IsDown (interface_added info) = ⊥
  IsDown (interface_removed info) = Unit
  IsDown (interface_changed info) = info.state ≢ ConnectionState.connected

  -- After an event that an interface was removed, or changed to a state other than connected, no
  -- backup table of a well-formed actor mentions the interface.
  pub handle_event-Forgotten :
      (self : RouteManager Route) (evt : InterfaceManagerEvent)
      → IsValid self
      → IsDown evt
      → Forgotten (handle_event api self evt).0 (info_of evt).id
  unfolding handle_event
  handle_event-Forgotten self (interface_added info) h down = absurd down
  handle_event-Forgotten self (interface_removed info) h down = forget-Forgotten self info.id h
  handle_event-Forgotten self (interface_changed info) h down =
      let updated = record self {
        v4_backup = change_v4 api info self.v4_backup;
        v6_backup = change_v6 api info self.v6_backup;
      } in
      let valid : IsValid updated = record {
        v4 = change_v4-IsConsistent info self.v4_backup h.v4;
        v6 = change_v6-IsConsistent info self.v6_backup h.v6;
        routes = h.routes;
      } in
      let e : (info.state === ConnectionState.connected) ≡ false = ground arith in
      rw (e, handle_event) (forget-Forgotten updated info.id valid)
