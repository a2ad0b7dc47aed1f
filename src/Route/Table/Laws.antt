-- ===== src/Route/Table/Laws.antt =====
-- What each operation of network-daemon/src/route/table.rs does to the routes of a destination and
-- to the destinations of an interface.
use network_daemon.Prelude.{
  ℕ, ◌≡◌, Option, none, some, List, [], ◌∷◌, true, false, ◌&&◌, if◌then◌else◌, Key, ℕ_key, ◌===◌,
  arith,
}
use network_daemon.Prelude.Map
use network_daemon.Prelude.Map.{has}
use network_daemon.Prelude.Set
use network_daemon.Prelude.Sorted
use network_daemon.Ip.{
  PrefixedIpAddr, PrefixedIpAddr_key, PrefixedIpAddr_discrete, PrefixedIpv4Addr_key,
  PrefixedIpv6Addr_key, into_prefixed,
}
use network_daemon.Route.Api.{RouteApi}
use network_daemon.Route.Table.{RouteTable, insert_at, take_least, remove, find}

module _ (api : RouteApi) where
  open api use {Route, destination, prefix, if_index, cmp}

  -- The key under which a route is stored.
  abbrev pub key : Route → PrefixedIpAddr
  key r = into_prefixed (destination r) (prefix r)

  pub find-insert_at :
      (t : RouteTable Route) (oif : ℕ) (b a : PrefixedIpAddr) (r : Route)
      → find api (insert_at api t oif b r) a ≡ (
          if b === a
          then some (Sorted.insert cmp r (Map.set_or_default (find api t b)))
          else find api t a)
  unfolding find insert_at PrefixedIpAddr_discrete
  find-insert_at t oif (PrefixedIpAddr.v4 b) (PrefixedIpAddr.v4 a) r =
      let s = Sorted.insert cmp r (Map.set_or_default (Map.get b t.v4)) in
      ground (arith, Map.get-insert a b s t.v4)
  find-insert_at t oif (PrefixedIpAddr.v6 b) (PrefixedIpAddr.v6 a) r =
      let s = Sorted.insert cmp r (Map.set_or_default (Map.get b t.v6)) in
      ground (arith, Map.get-insert a b s t.v6)
  find-insert_at t oif (PrefixedIpAddr.v4 b) (PrefixedIpAddr.v6 a) r = ground arith
  find-insert_at t oif (PrefixedIpAddr.v6 b) (PrefixedIpAddr.v4 a) r = ground arith

  pub has-insert_at :
      (t : RouteTable Route) (i j : ℕ) (b a : PrefixedIpAddr) (r : Route)
      → has j a (insert_at api t i b r).by_oif
        ≡ (if j === i && b === a then true else has j a t.by_oif)
  unfolding insert_at
  has-insert_at t i j (PrefixedIpAddr.v4 b) a r =
      ground (arith, Map.has-entry_insert j i a (PrefixedIpAddr.v4 b) t.by_oif)
  has-insert_at t i j (PrefixedIpAddr.v6 b) a r =
      ground (arith, Map.has-entry_insert j i a (PrefixedIpAddr.v6 b) t.by_oif)

  -- What is left under a key without its least route.
  abbrev pub left_of : List Route → Option (List Route)
  left_of rest = if Set.is_empty rest then none else some rest

  take_least-some :
      {K : Type 0} (k : K) (m : List (K × List Route)) (r : Route) (rest : List Route)
      → ⦃key : Key K⦄ → Map.get k m ≡ some (r ∷ rest)
      → take_least api k m
        ≡ some (r, if Set.is_empty rest then Map.remove k m else Map.insert k rest m)
  unfolding take_least Sorted.remove
  take_least-some k m r rest e = ground (arith, api.cmp_refl r)

  -- The three parts of a successful removal: the result, the other destinations, and the interfaces.
  pub remove_found :
      (t : RouteTable Route) (b : PrefixedIpAddr) (r : Route) (rest : List Route) (oif : ℕ)
      → find api t b ≡ some (r ∷ rest)
      → if_index r ≡ some oif
      → (t' : RouteTable Route) × (remove api t b ≡ some (t', some r))
        × ((a : PrefixedIpAddr) → find api t' a ≡ (if b === a then left_of rest else find api t a))
        × ((j : ℕ) (a : PrefixedIpAddr)
            → has j a t'.by_oif ≡ (if j === oif && b === a then false else has j a t.by_oif))
  unfolding remove find PrefixedIpAddr_discrete
  remove_found t (PrefixedIpAddr.v4 b) r rest oif e i =
      let m = if Set.is_empty rest then Map.remove b t.v4 else Map.insert b rest t.v4 in
      (
        record t { v4 = m; by_oif = Map.entry_prune oif (PrefixedIpAddr.v4 b) t.by_oif },
        ground (arith, take_least-some b t.v4 r rest e, i),
        elim [
          | PrefixedIpAddr.v4 a ↦
              ground (arith, Map.get-insert a b rest t.v4, Map.get-remove a b t.v4)
          | PrefixedIpAddr.v6 a ↦ ground arith
        ],
        λ j a. ground (arith, Map.has-entry_prune j oif a (PrefixedIpAddr.v4 b) t.by_oif),
      )
  remove_found t (PrefixedIpAddr.v6 b) r rest oif e i =
      let m = if Set.is_empty rest then Map.remove b t.v6 else Map.insert b rest t.v6 in
      (
        record t { v6 = m; by_oif = Map.entry_prune oif (PrefixedIpAddr.v6 b) t.by_oif },
        ground (arith, take_least-some b t.v6 r rest e, i),
        elim [
          | PrefixedIpAddr.v4 a ↦ ground arith
          | PrefixedIpAddr.v6 a ↦
              ground (arith, Map.get-insert a b rest t.v6, Map.get-remove a b t.v6)
        ],
        λ j a. ground (arith, Map.has-entry_prune j oif a (PrefixedIpAddr.v6 b) t.by_oif),
      )

  pub remove_missing :
      (t : RouteTable Route) (b : PrefixedIpAddr)
      → Map.set_or_default (find api t b) ≡ []
      → remove api t b ≡ some (t, none)
  unfolding remove find take_least Map.set_or_default
  remove_missing t (PrefixedIpAddr.v4 b) e = ground arith
  remove_missing t (PrefixedIpAddr.v6 b) e = ground arith
