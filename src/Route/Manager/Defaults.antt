-- ===== src/Route/Manager/Defaults.antt =====
-- The default routes that the actor of network-daemon/src/route/mod.rs asks for.
use network_daemon.Prelude.{
  ℕ, ◌≡◌, ◌⊎◌, refl, Option, none, some, List, [], ◌∷◌, true, false, inl, inr, Empty, In,
}
use network_daemon.Ip.{IpAddr, PrefixedIpv4Addr, PrefixedIpv6Addr}
use network_daemon.Route.Api.{RouteApi}
use network_daemon.Route.Backup.{available_gateways}
use network_daemon.Route.Table
use network_daemon.Route.Manager.{
  Request, add, delete, RouteManager, default_route, default_v4, default_v6,
  add_default_rt_if_needed,
}
use network_daemon.Route.Manager.Requests.{All, All-append}

module _ (api : RouteApi) (self : RouteManager api.Route) where
  open api use {Route, destination, prefix, gateway, if_index}

  -- A default route of a family, through a gateway of that family that the backup table lists, while
  -- the table of routes has no default route of that family.
  abbrev pub IsDefaultV4 : Route → Type 0
  IsDefaultV4 r =
      (gw : PrefixedIpv4Addr) × (oif : ℕ) × (In {A = PrefixedIpv4Addr × ℕ} (gw, oif)
        (available_gateways self.v4_backup))
      × (Table.find_default api self.route_table false ≡ none)
      × (destination r ≡ IpAddr.v4 0)
      × (prefix r ≡ 0)
      × (gateway r ≡ some (IpAddr.v4 gw.addr))
      × (if_index r ≡ some oif)

  abbrev pub IsDefaultV6 : Route → Type 0
  IsDefaultV6 r =
      (gw : PrefixedIpv6Addr) × (oif : ℕ) × (In {A = PrefixedIpv6Addr × ℕ} (gw, oif)
        (available_gateways self.v6_backup))
      × (Table.find_default api self.route_table true ≡ none)
      × (destination r ≡ IpAddr.v6 0)
      × (prefix r ≡ 0)
      × (gateway r ≡ some (IpAddr.v6 gw.addr))
      × (if_index r ≡ some oif)

  abbrev pub IsDefault : Request Route → Type 0
  IsDefault (delete r) = Empty
  IsDefault (add r) = IsDefaultV4 r ⊎ IsDefaultV6 r

  default_route_fields :
      (d g : IpAddr) (i : ℕ)
      → (destination (default_route api d g i) ≡ d)
        × (prefix (default_route api d g i) ≡ 0)
        × (gateway (default_route api d g i) ≡ some g)
        × (if_index (default_route api d g i) ≡ some i)
  default_route_fields d g i = (
    rw (api.destination-with_if_index, api.destination-with_gateway, api.destination-new),
    rw (api.prefix-with_if_index, api.prefix-with_gateway, api.prefix-new),
    rw (api.gateway-with_if_index, api.gateway-with_gateway),
    api.if_index-with_if_index _ i,
  )

  default_v4-IsDefault :
      (found : Option (List Route)) (gws : List (PrefixedIpv4Addr × ℕ))
      → available_gateways self.v4_backup ≡ gws
      → Table.find_default api self.route_table false ≡ found
      → All IsDefault (default_v4 api found gws)
  unfolding default_v4
  default_v4-IsDefault (some _) _ _ _ = tt
  default_v4-IsDefault none [] _ _ = tt
  default_v4-IsDefault none ((gw, oif) ∷ rest) e missing =
      let (d, p, g, i) = default_route_fields (IpAddr.v4 0) (IpAddr.v4 gw.addr) oif in
      (inl (gw, oif, rw e (inl refl), missing, d, p, g, i), tt)

  default_v6-IsDefault :
      (found : Option (List Route)) (gws : List (PrefixedIpv6Addr × ℕ))
      → available_gateways self.v6_backup ≡ gws
      → Table.find_default api self.route_table true ≡ found
      → All IsDefault (default_v6 api found gws)
  unfolding default_v6
  default_v6-IsDefault (some _) _ _ _ = tt
  default_v6-IsDefault none [] _ _ = tt
  default_v6-IsDefault none ((gw, oif) ∷ rest) e missing =
      let (d, p, g, i) = default_route_fields (IpAddr.v6 0) (IpAddr.v6 gw.addr) oif in
      (inr (gw, oif, rw e (inl refl), missing, d, p, g, i), tt)

-- Every request of `add_default_rt_if_needed` adds a default route, through a gateway that the backup
-- table of its family lists and while the table of routes has no default route of that family.
pub add_default_rt_if_needed-IsDefault :
    (api : RouteApi) (self : RouteManager api.Route)
    → All (IsDefault api self) (add_default_rt_if_needed api self)
unfolding add_default_rt_if_needed
add_default_rt_if_needed-IsDefault api self =
    let v4 = default_v4-IsDefault api self _ _ refl refl in
    let v6 = default_v6-IsDefault api self _ _ refl refl in
    All-append (IsDefault api self) _ _ v4 v6
