-- ===== src/Route/Manager/Restored.antt =====
-- What the actor of network-daemon/src/route/mod.rs does not forget to ask for: every route of a dead
-- interface is deleted, and added back where another interface reaches its network; a missing default
-- route is asked for where there is a gateway.
use network_daemon.Prelude.{
  ℕ, ◌≡◌, ◌≢◌, refl, ap, Option, none, some, List, [], ◌∷◌, ◌++◌, true, false, not, ℕ_key, ◌===◌,
  ◌=?◌, arith, inl, inr, Option-cases, In,
}
use network_daemon.Prelude.Map
use network_daemon.Prelude.Map.{has}
use network_daemon.Prelude.Set
use network_daemon.Ip.{
  IpAddr, PrefixedIpAddr, PrefixedIpv4Addr, PrefixedIpv6Addr, PrefixedIpv4Addr_key,
  PrefixedIpv6Addr_key, PrefixedIpAddr_key,
}
use network_daemon.Interface.Info.{InterfaceInfo}
use network_daemon.Route.Api.{RouteApi}
use network_daemon.Route.Backup.{available_gateways}
use network_daemon.Route.Table
use network_daemon.Route.Table.{RouteTable, find_first, is_some_eq, cons_option}
use network_daemon.Route.Table.Indexed.{IsIndexed}
use network_daemon.Route.Manager.{
  add, delete, RouteManager, default_route, default_v4, default_v6, add_default_rt_if_needed,
  outputs_of, add_back, cleanup_routes, dead_rt_cleanup,
}

In-left {ℓ} : {A : Type ℓ} (x : A) (xs ys : List A) → In x xs → In x (xs ++ ys)
In-left x [] ys e = elim e [ ]
In-left x (z ∷ xs) ys (inl e) = inl e
In-left x (z ∷ xs) ys (inr e) = inr (In-left x xs ys e)

In-right {ℓ} : {A : Type ℓ} (x : A) (xs ys : List A) → In x ys → In x (xs ++ ys)
In-right x [] ys e = e
In-right x (z ∷ xs) ys e = inr (In-right x xs ys e)

find_first_other :
    (id j : ℕ) (outputs : List ℕ)
    → Set.contains j outputs ≡ true
    → j ≢ id
    → (k : ℕ) × (find_first (λ oif. not (oif === id)) outputs ≡ some k)
unfolding find_first Set.contains
find_first_other id j [] e other = cc
find_first_other id j (i ∷ outputs) e other = elim (i =? id) [
  | yes p ↦
      let (k, hit) = find_first_other id j outputs (ground arith) other in (k, ground (arith, hit))
  | no n ↦ (i, ground arith)
]

module _ (api : RouteApi) (self : RouteManager api.Route) (id : ℕ) where
  open api use {Route, destination, prefix, if_index, new, with_if_index}

  routes_with_complete :
      (addrs : List PrefixedIpAddr) (a : PrefixedIpAddr) (r : Route)
      → Set.contains a addrs ≡ true
      → Table.find api self.route_table a ≡ some (r ∷ [])
      → if_index r ≡ some id
      → In r (Table.routes_with api self.route_table id addrs)
  unfolding Table.routes_with cons_option find_first is_some_eq Set.contains Map.set_or_default
  routes_with_complete [] a r e found own = cc
  routes_with_complete (b ∷ addrs) a r e found own = elim (b =? a) [
    | yes p ↦ ground (arith, found, own)
    | no n ↦
        let rest = routes_with_complete addrs a r (ground arith) found own in
        elim (Option-cases (
          find_first (λ rt. is_some_eq (if_index rt) id)
            (Map.set_or_default (Table.find api self.route_table b)))) [
              | inl miss ↦ rw miss rest
              | inr (rt, hit) ↦ rw hit (inr rest)
            ]
  ]

  cleanup_routes_deletes :
      (rts : List Route) (r : Route) → In r rts → In (delete r) (cleanup_routes api self id rts)
  unfolding cleanup_routes
  cleanup_routes_deletes [] r e = elim e [ ]
  cleanup_routes_deletes (rt ∷ rts) r (inl e) = inl (ap delete e)
  cleanup_routes_deletes (rt ∷ rts) r (inr e) = inr (
      In-right (delete r) (add_back api rt id _) (cleanup_routes api self id rts)
        (cleanup_routes_deletes rts r e))

  -- The route that is added back for r, through the interface k.
  abbrev pub replacement : Route → ℕ → Route
  replacement r k = with_if_index (new (destination r) (prefix r)) k

  cleanup_routes_restores :
      (rts : List Route) (r : Route) (outputs : List ℕ) (j : ℕ)
      → In r rts
      → outputs_of api self (destination r) (prefix r) ≡ some outputs
      → Set.contains j outputs ≡ true
      → j ≢ id
      → (k : ℕ) × In (add (replacement r k)) (cleanup_routes api self id rts)
  unfolding cleanup_routes add_back
  cleanup_routes_restores [] r outputs j e reach inside other = elim e [ ]
  cleanup_routes_restores (rt ∷ rts) r outputs j (inl e) reach inside other =
      let (k, hit) = find_first_other id j outputs inside other in
      let back : add_back api rt id (outputs_of api self (destination rt) (prefix rt))
          ≡ add (replacement r k) ∷ [] =
        ground (arith, e, reach, hit) in
      (k, rw back (inr (inl refl)))
  cleanup_routes_restores (rt ∷ rts) r outputs j (inr e) reach inside other =
      let (k, hit) = cleanup_routes_restores rts r outputs j e reach inside other in
      (
        k,
        inr (
            In-right (add (replacement r k)) (add_back api rt id _) (cleanup_routes api self id rts)
              hit),
      )

-- The cleanup for an interface deletes each route of the interface that a well-formed table holds.
dead_rt_cleanup_deletes :
    (api : RouteApi) (self : RouteManager api.Route) (info : InterfaceInfo) (a : PrefixedIpAddr)
    (r : api.Route)
    → IsIndexed api self.route_table
    → Table.find api self.route_table a ≡ some (r ∷ [])
    → api.if_index r ≡ some info.id
    → In (delete r) (dead_rt_cleanup api self info)
unfolding dead_rt_cleanup Table.find_by_oif Map.set_or_default Set.contains
dead_rt_cleanup_deletes api self info a r h found own =
    let listed = h.tracked a r info.id found own in
    elim (Option-cases (Map.get info.id self.route_table.by_oif)) [
      | inl miss ↦ ground (arith, listed)
      | inr (addrs, hit) ↦
          let inside : Set.contains a addrs ≡ true = ground (arith, listed) in
          let there = routes_with_complete api self info.id addrs a r inside found own in
          rw (hit, Table.find_by_oif, dead_rt_cleanup)
            (cleanup_routes_deletes api self info.id _ r there)
    ]

-- The cleanup for an interface adds a route to the destination of each of its routes that a well-formed
-- table holds, through some interface, if the backup table lists an interface other than the dead one
-- for the network of the route.
pub dead_rt_cleanup_restores :
    (api : RouteApi) (self : RouteManager api.Route) (info : InterfaceInfo) (a : PrefixedIpAddr)
    (r : api.Route) (outputs : List ℕ) (j : ℕ)
    → IsIndexed api self.route_table
    → Table.find api self.route_table a ≡ some (r ∷ [])
    → api.if_index r ≡ some info.id
    → outputs_of api self (api.destination r) (api.prefix r) ≡ some outputs
    → Set.contains j outputs ≡ true
    → j ≢ info.id
    → (k : ℕ) × In (add (replacement api self info.id r k)) (dead_rt_cleanup api self info)
unfolding dead_rt_cleanup Table.find_by_oif Map.set_or_default Set.contains
dead_rt_cleanup_restores api self info a r outputs j h found own reach in_outputs other =
    let listed = h.tracked a r info.id found own in
    elim (Option-cases (Map.get info.id self.route_table.by_oif)) [
      | inl miss ↦ ground (arith, listed)
      | inr (addrs, hit) ↦
          let inside : Set.contains a addrs ≡ true = ground (arith, listed) in
          let there = routes_with_complete api self info.id addrs a r inside found own in
          rw (hit, Table.find_by_oif, dead_rt_cleanup)
            (cleanup_routes_restores api self info.id _ r outputs j there reach in_outputs other)
    ]

default_v4_asks :
    (api : RouteApi) (found : Option (List api.Route)) (gws : List (PrefixedIpv4Addr × ℕ))
    → found ≡ none
    → gws ≢ []
    → (gw : PrefixedIpv4Addr) × (oif : ℕ) × In {A = PrefixedIpv4Addr × ℕ} (gw, oif) gws
      × In
          (add (default_route api (IpAddr.v4 0) (IpAddr.v4 gw.addr) oif))
          (default_v4 api found gws)
unfolding default_v4
default_v4_asks api (some _) gws e n = cc
default_v4_asks api none [] e n = absurd (n refl)
default_v4_asks api none ((gw, oif) ∷ rest) e n = (gw, oif, inl refl, inl refl)

default_v6_asks :
    (api : RouteApi) (found : Option (List api.Route)) (gws : List (PrefixedIpv6Addr × ℕ))
    → found ≡ none
    → gws ≢ []
    → (gw : PrefixedIpv6Addr) × (oif : ℕ) × In {A = PrefixedIpv6Addr × ℕ} (gw, oif) gws
      × In
          (add (default_route api (IpAddr.v6 0) (IpAddr.v6 gw.addr) oif))
          (default_v6 api found gws)
unfolding default_v6
default_v6_asks api (some _) gws e n = cc
default_v6_asks api none [] e n = absurd (n refl)
default_v6_asks api none ((gw, oif) ∷ rest) e n = (gw, oif, inl refl, inl refl)

-- If the table of routes has no IPv4 default route and the IPv4 backup table lists a gateway, then
-- `add_default_rt_if_needed` asks for a default route through one of the listed gateways.
add_default_rt_if_needed_asks_v4 :
    (api : RouteApi) (self : RouteManager api.Route)
    → Table.find_default api self.route_table false ≡ none
    → available_gateways self.v4_backup ≢ []
    → (gw : PrefixedIpv4Addr) × (oif : ℕ) × In {A = PrefixedIpv4Addr × ℕ}
        (gw, oif)
        (available_gateways self.v4_backup)
      × In
          (add (default_route api (IpAddr.v4 0) (IpAddr.v4 gw.addr) oif))
          (add_default_rt_if_needed api self)
unfolding add_default_rt_if_needed
add_default_rt_if_needed_asks_v4 api self missing listed =
    let (gw, oif, from, asked) = default_v4_asks api _ _ missing listed in
    (
      gw,
      oif,
      from,
      In-left (add (default_route api (IpAddr.v4 0) (IpAddr.v4 gw.addr) oif)) _ _ asked,
    )

-- If the table of routes has no IPv6 default route and the IPv6 backup table lists a gateway, then
-- `add_default_rt_if_needed` asks for a default route through one of the listed gateways.
add_default_rt_if_needed_asks_v6 :
    (api : RouteApi) (self : RouteManager api.Route)
    → Table.find_default api self.route_table true ≡ none
    → available_gateways self.v6_backup ≢ []
    → (gw : PrefixedIpv6Addr) × (oif : ℕ) × In {A = PrefixedIpv6Addr × ℕ}
        (gw, oif)
        (available_gateways self.v6_backup)
      × In
          (add (default_route api (IpAddr.v6 0) (IpAddr.v6 gw.addr) oif))
          (add_default_rt_if_needed api self)
unfolding add_default_rt_if_needed
add_default_rt_if_needed_asks_v6 api self missing listed =
    let (gw, oif, from, asked) = default_v6_asks api _ _ missing listed in
    (
      gw,
      oif,
      from,
      In-right (add (default_route api (IpAddr.v6 0) (IpAddr.v6 gw.addr) oif))
          (default_v4 api (Table.find_default api self.route_table false)
            (available_gateways self.v4_backup))
          _ asked,
    )
