-- ===== src/Route/Table.antt =====
-- network-daemon/src/route/table.rs: the routes of the kernel by destination, and the destinations
-- by output interface. A missing `if_index` makes `unwrap` panic: such a run has no result, `none`.
pub mod Laws
pub mod Indexed
pub mod Interfaces
use network_daemon.Prelude.{
  ℕ, ◌≡◌, Option, none, some, List, [], ◌∷◌, ◌++◌, Bool, true, false, if◌then◌else◌, Key, ℕ_key,
  ℕ_discrete,
}
use network_daemon.Prelude.Map
use network_daemon.Prelude.Set
use network_daemon.Prelude.Sorted
use network_daemon.Ip.{
  IpAddr, PrefixedIpv4Addr, PrefixedIpv6Addr, PrefixedIpAddr, PrefixedIpv4Addr_key,
  PrefixedIpv6Addr_key, PrefixedIpAddr_key, unspecified_v4, unspecified_v6, into_prefixed,
}
use network_daemon.Route.Api.{RouteApi}

pub record RouteTable (Route : Type 0) : Type 0 where
  pub v4 : List (PrefixedIpv4Addr × List Route)
  pub v6 : List (PrefixedIpv6Addr × List Route)
  pub by_oif : List (ℕ × List PrefixedIpAddr)

-- `Iterator::find` and the `filter_map` of `find_by_oif` take the first match.
unfoldable pub find_first {ℓ} : {A : Type ℓ} → (A → Bool) → List A → Option A
find_first p [] = none
find_first p (x ∷ xs) = if p x then some x else find_first p xs

unfoldable pub is_some_eq : Option ℕ → ℕ → Bool
unfolding ℕ_discrete
is_some_eq none oif = false
is_some_eq (some i) oif = elim (ℕ_discrete i oif) [ yes _ ↦ true | no _ ↦ false ]

unfoldable pub cons_option {ℓ} : {A : Type ℓ} → Option A → List A → List A
cons_option none xs = xs
cons_option (some x) xs = x ∷ xs

unfoldable pub flat_values {ℓ κ} : {K : Type ℓ} {V : Type κ} → List (K × List V) → List V
flat_values [] = []
flat_values ((k, vs) ∷ m) = vs ++ flat_values m

module _ (api : RouteApi) where
  open api use {Route, destination, prefix, if_index, cmp}

  abbrev pub empty : RouteTable Route
  empty = record { v4 = []; v6 = []; by_oif = [] }

  -- `map.entry(addr).or_default().insert(route)` on a map of route sets.
  unfoldable pub insert_route :
      {K : Type 0} → ⦃key : Key K⦄ → K → Route → List (K × List Route) → List (K × List Route)
  insert_route k route m =
      Map.insert k (Sorted.insert cmp route (Map.set_or_default (Map.get k m))) m

  -- The two arms of `insert`.
  unfoldable pub insert_at : RouteTable Route → ℕ → PrefixedIpAddr → Route → RouteTable Route
  unfolding insert_route
  insert_at self oif (PrefixedIpAddr.v4 addr) route = record self {
    v4 = insert_route addr route self.v4;
    by_oif = Map.entry_insert oif (PrefixedIpAddr.v4 addr) self.by_oif;
  }
  insert_at self oif (PrefixedIpAddr.v6 addr) route = record self {
    v6 = insert_route addr route self.v6;
    by_oif = Map.entry_insert oif (PrefixedIpAddr.v6 addr) self.by_oif;
  }

  unfoldable pub insert : RouteTable Route → Route → Option (RouteTable Route)
  unfolding insert_at into_prefixed
  insert self route = elim (if_index route) [
    | none ↦ none
    | some oif ↦ some (insert_at self oif (into_prefixed (destination route) (prefix route)) route)
  ]

  -- The least route of a key, and the map without it; a set that becomes empty is dropped.
  unfoldable pub take_least :
      {K : Type 0}
      → ⦃key : Key K⦄ → K
      → List (K × List Route)
      → Option (Route × List (K × List Route))
  take_least k m = elim (Map.get k m) [
    | none ↦ none
    | some [] ↦ none
    | some (rt ∷ rest) ↦
        let left = Sorted.remove cmp rt (rt ∷ rest) in
        some (rt, if Set.is_empty left then Map.remove k m else Map.insert k left m)
  ]

  unfoldable pub remove :
      RouteTable Route → PrefixedIpAddr → Option (RouteTable Route × Option Route)
  unfolding take_least
  remove self (PrefixedIpAddr.v4 inner) = elim (take_least inner self.v4) [
    | none ↦ some (self, none)
    | some (rt, v4) ↦ elim (if_index rt) [
      | none ↦ none
      | some oif ↦ some (
        record self { v4 = v4; by_oif = Map.entry_prune oif (PrefixedIpAddr.v4 inner) self.by_oif },
        some rt,
      )
    ]
  ]
  remove self (PrefixedIpAddr.v6 inner) = elim (take_least inner self.v6) [
    | none ↦ some (self, none)
    | some (rt, v6) ↦ elim (if_index rt) [
      | none ↦ none
      | some oif ↦ some (
        record self { v6 = v6; by_oif = Map.entry_prune oif (PrefixedIpAddr.v6 inner) self.by_oif },
        some rt,
      )
    ]
  ]

  -- The loop of `remove_by_oif`.
  unfoldable pub remove_all : RouteTable Route → List PrefixedIpAddr → Option (RouteTable Route)
  remove_all self [] = some self
  remove_all self (addr ∷ addrs) = elim (remove self addr) [
    | none ↦ none
    | some (self', _) ↦ remove_all self' addrs
  ]

  unfoldable pub remove_by_oif :
      RouteTable Route → ℕ → Option (RouteTable Route × Option (List PrefixedIpAddr))
  unfolding remove_all
  remove_by_oif self oif = elim (Map.get oif self.by_oif) [
    | none ↦ some (self, none)
    | some addrs ↦ elim (remove_all (record self { by_oif = Map.remove oif self.by_oif }) addrs) [
      | none ↦ none
      | some self' ↦ some (self', some addrs)
    ]
  ]

  unfoldable pub remove_default_route :
      RouteTable Route → Bool → Option (RouteTable Route × Option Route)
  remove_default_route self v6 =
      if v6
      then remove self (PrefixedIpAddr.v6 unspecified_v6)
      else remove self (PrefixedIpAddr.v4 unspecified_v4)

  unfoldable pub find : RouteTable Route → PrefixedIpAddr → Option (List Route)
  find self (PrefixedIpAddr.v4 addr) = Map.get addr self.v4
  find self (PrefixedIpAddr.v6 addr) = Map.get addr self.v6

  unfoldable pub find_default : RouteTable Route → Bool → Option (List Route)
  find_default self v6 =
      if v6 then Map.get unspecified_v6 self.v6 else Map.get unspecified_v4 self.v4

  -- The `filter_map` of `find_by_oif`: at each destination the first route with the interface.
  unfoldable pub routes_with : RouteTable Route → ℕ → List PrefixedIpAddr → List Route
  unfolding is_some_eq find_first cons_option
  routes_with self oif [] = []
  routes_with self oif (addr ∷ addrs) =
      cons_option
        (find_first (λ rt. is_some_eq (if_index rt) oif) (Map.set_or_default (find self addr)))
        (routes_with self oif addrs)

  unfoldable pub find_by_oif : RouteTable Route → ℕ → Option (List Route)
  unfolding routes_with
  find_by_oif self oif = elim (Map.get oif self.by_oif) [
    | none ↦ none
    | some addrs ↦ some (routes_with self oif addrs)
  ]

  unfoldable pub v4_routes : RouteTable Route → List Route
  unfolding flat_values
  v4_routes self = flat_values self.v4

  unfoldable pub v6_routes : RouteTable Route → List Route
  unfolding flat_values
  v6_routes self = flat_values self.v6

  unfoldable pub all_routes : RouteTable Route → List Route
  unfolding v4_routes v6_routes
  all_routes self = v4_routes self ++ v6_routes self

  unfoldable pub clear : RouteTable Route → RouteTable Route
  clear self = empty
