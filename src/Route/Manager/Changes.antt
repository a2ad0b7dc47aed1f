-- ===== src/Route/Manager/Changes.antt =====
-- Route changes of the kernel in network-daemon/src/route/mod.rs: with the order of routes on FreeBSD
-- the table stays well-formed, and no `unwrap` panics while every route names an interface.
use network_daemon.Prelude.{
  ℕ, ◌≡◌, ◌≢◌, refl, Option, none, some, List, [], ◌∷◌, if◌then◌else◌, ◌===◌, arith, inl, inr,
  Option-cases,
}
use network_daemon.Ip.{PrefixedIpAddr, PrefixedIpAddr_key}
use network_daemon.Route.Api.{RouteApi}
use network_daemon.Route.Table
use network_daemon.Route.Table.{RouteTable, insert_at}
use network_daemon.Route.Table.Laws.{key}
use network_daemon.Route.Table.Indexed.{
  ByPrefix, IsIndexed, insert_at-IsIndexed, remove-IsIndexed, find-insert, kept,
}
use network_daemon.Route.Manager.{RouteChange, add, delete, change, apply_change, load_routes}
use network_daemon.Route.Manager.Requests.{All}

module _ (api : RouteApi) (order : ByPrefix api) where
  open api use {Route, if_index, destination, prefix}

  abbrev pub route_of : RouteChange Route → Route
  route_of (add r) = r
  route_of (delete r) = r
  route_of (change r) = r

  -- What the table holds for the destination of the route after a change, given what it held before:
  -- an addition keeps the route that is there, a change replaces it.
  abbrev pub expected : RouteChange Route → Option (List Route) → Option (List Route)
  expected (add r) before = some (kept api before r)
  expected (delete r) before = none
  expected (change r) before = some (r ∷ [])

  insert-IsIndexed :
      (t : RouteTable Route) (r : Route) (oif : ℕ)
      → if_index r ≡ some oif
      → IsIndexed api t
      → (t' : RouteTable Route) × (Table.insert api t r ≡ some t')
        × IsIndexed api t'
        × ((a : PrefixedIpAddr)
            → Table.find api t' a ≡ (
                if key api r === a
                then some (kept api (Table.find api t (key api r)) r)
                else Table.find api t a))
  unfolding Table.insert
  insert-IsIndexed t r oif e h = (
    insert_at api t oif (key api r) r,
    ground (arith, e),
    insert_at-IsIndexed api order t oif r e h,
    find-insert api order t oif r h.valid,
  )

  -- With routes ordered by prefix length, as on FreeBSD: on a well-formed table the change of a route
  -- that names an interface never panics. It gives the
  -- destination of the route the expected routes, leaves every other destination, and keeps the table
  -- well-formed.
  pub apply_change-IsIndexed :
      (t : RouteTable Route) (rc : RouteChange Route) (oif : ℕ)
      → if_index (route_of rc) ≡ some oif
      → IsIndexed api t
      → (t' : RouteTable Route) × (apply_change api t rc ≡ some t')
        × IsIndexed api t'
        × ((a : PrefixedIpAddr)
            → Table.find api t' a ≡ (
                if key api (route_of rc) === a
                then expected rc (Table.find api t (key api (route_of rc)))
                else Table.find api t a))
  unfolding apply_change
  apply_change-IsIndexed t (add r) oif e h = insert-IsIndexed t r oif e h
  apply_change-IsIndexed t (delete r) oif e h =
      let (t', old, removed, gone, valid) = remove-IsIndexed api t (key api r) h in
      (t', rw (removed, apply_change), valid, λ a. gone a)
  apply_change-IsIndexed t (change r) oif e h =
      let (t1, old, removed, gone, valid) = remove-IsIndexed api t (key api r) h in
      let (t2, inserted, valid2, found) = insert-IsIndexed t1 r oif e valid in
      (
        t2,
        rw (removed, apply_change) inserted,
        valid2,
        λ a. ground (arith, gone a, gone (key api r), found a),
      )

  -- The loop of `on_start`, with routes ordered by prefix length: from routes that all name an interface a well-formed table is filled without
  -- a panic, and is well-formed again.
  load_routes-IsIndexed :
      (rs : List Route) (t : RouteTable Route)
      → All (λ r. if_index r ≢ none) rs
      → IsIndexed api t
      → (t' : RouteTable Route) × (load_routes api t rs ≡ some t') × IsIndexed api t'
  unfolding load_routes
  load_routes-IsIndexed [] t _ h = (t, refl, h)
  load_routes-IsIndexed (r ∷ rs) t (named, rest) h = elim (Option-cases (if_index r)) [
    | inl e ↦ absurd (named e)
    | inr (oif, e) ↦
        let (t1, inserted, valid, _) = insert-IsIndexed t r oif e h in
        let (t2, loaded, valid2) = load_routes-IsIndexed rs t1 rest valid in
        (t2, rw (inserted, load_routes) loaded, valid2)
  ]
