-- ===== src/Route/Table/Interfaces.antt =====
-- Whole sequences of operations on the table of network-daemon/src/route/table.rs, and removal by
-- interface.
use network_daemon.Prelude.{
  ℕ, ◌≡◌, refl, Option, none, some, List, [], ◌∷◌, true, if◌then◌else◌, ℕ_key, arith, Option-cases,
  inl, inr,
}
use network_daemon.Prelude.Map
use network_daemon.Prelude.Map.{has}
use network_daemon.Prelude.Set
use network_daemon.Ip.{PrefixedIpAddr, PrefixedIpAddr_key}
use network_daemon.Route.Api.{RouteApi}
use network_daemon.Route.Table.{RouteTable, insert_at, insert, remove_all, remove_by_oif, find}
use network_daemon.Route.Table.Laws.{key, has-insert_at}
use network_daemon.Route.Table.Indexed.{
  ByPrefix, IsKeyed, IsIndexed, same_entry, find-insert, insert_at-IsIndexed, remove_keyed,
  IsKeyed-without,
}

module _ (api : RouteApi) where
  open api use {Route, if_index}

  -- The loop of `remove_by_oif` takes away the destinations that it is given and no other.
  pub remove_all_keyed :
      (bs : List PrefixedIpAddr) (t : RouteTable Route)
      → IsKeyed api t
      → (t' : RouteTable Route) × (remove_all api t bs ≡ some t')
        × ((a : PrefixedIpAddr)
            → find api t' a ≡ (if Set.contains a bs then none else find api t a))
  unfolding remove_all Set.contains
  remove_all_keyed [] t h = (t, refl, λ a. refl)
  remove_all_keyed (b ∷ bs) t h =
      let (t1, r, removed, gone) = remove_keyed api t b h in
      let (t2, rest, all_gone) = remove_all_keyed bs t1 (IsKeyed-without api t t1 b gone h) in
      (t2, rw (removed, remove_all) rest, λ a. ground (arith, gone a, all_gone a))

  same_find :
      (t : RouteTable Route) (m : List (ℕ × List PrefixedIpAddr)) (a : PrefixedIpAddr)
      → find api (record t { by_oif = m }) a ≡ find api t a
  unfolding find
  same_find t m (PrefixedIpAddr.v4 a) = refl
  same_find t m (PrefixedIpAddr.v6 a) = refl

  -- On a well-formed table `remove_by_oif` always has a result. It takes away the destinations that
  -- are listed under the interface and no other, so that no route of the interface is left.
  pub remove_by_oif_lem :
      (t : RouteTable Route) (oif : ℕ)
      → IsIndexed api t
      → (t' : RouteTable Route) × (r : Option (List PrefixedIpAddr)) × (remove_by_oif api t oif
          ≡ some (t', r))
        × ((a : PrefixedIpAddr)
            → find api t' a ≡ (if has oif a t.by_oif then none else find api t a))
        × ((a : PrefixedIpAddr) (s : Route)
            → ¬ ((find api t' a ≡ some (s ∷ [])) × (if_index s ≡ some oif)))
  unfolding remove_by_oif Map.set_or_default Set.contains
  remove_by_oif_lem t oif h = elim (Option-cases (Map.get oif t.by_oif)) [
    | inl e ↦ (
      t,
      none,
      ground (arith, e),
      λ a. ground (arith, e),
      λ a s (found, i). ground (arith, h.tracked a s oif found i, e),
    )
    | inr (bs, e) ↦
        let cut = record t { by_oif = Map.remove oif t.by_oif } in
        let keyed = λ (a : PrefixedIpAddr). same_entry api t cut a (same_find t _ a) (h.valid a) in
        let (t', removed, gone) = remove_all_keyed bs cut keyed in
        (
          t',
          some bs,
          ground (arith, e, removed),
          λ a. ground (arith, gone a, same_find t (Map.remove oif t.by_oif) a, e),
          λ a s (found, i).
              ground (arith, gone a, same_find t (Map.remove oif t.by_oif) a, e, h.tracked a s oif),
        )
  ]

  insert-at :
      (t : RouteTable Route) (r : Route) (i : ℕ)
      → if_index r ≡ some i
      → insert api t r ≡ some (insert_at api t i (key api r) r)
  unfolding insert
  insert-at t r i e = ground (arith, e)

  -- With routes ordered by prefix length: on a well-formed table with no route to the destination of r, inserting r and then a route s to
  -- that destination through another interface keeps r alone. The interface of s is listed for the
  -- destination all the same: `remove_by_oif` of that interface then takes r away.
  pub second_route_dropped :
      ByPrefix api
      → (t : RouteTable Route) (r s : Route) (i j : ℕ) → IsIndexed api t
      → find api t (key api r) ≡ none
      → key api s ≡ key api r
      → if_index r ≡ some i
      → if_index s ≡ some j
      → (t1 : RouteTable Route) × (insert api t r ≡ some t1)
        × (t2 : RouteTable Route) × (insert api t1 s ≡ some t2)
        × (find api t2 (key api r) ≡ some (r ∷ []))
        × (t3 : RouteTable Route) × (addrs : Option (List PrefixedIpAddr)) × (remove_by_oif api t2 j
            ≡ some (t3, addrs))
        × (find api t3 (key api r) ≡ none)
  second_route_dropped order t r s i j h absent same ri sj =
      let t1 = insert_at api t i (key api r) r in
      let t2 = insert_at api t1 j (key api s) s in
      let h1 = insert_at-IsIndexed api order t i r ri h in
      let h2 = insert_at-IsIndexed api order t1 j s sj h1 in
      let (t3, addrs, removed, gone, _) = remove_by_oif_lem t2 j h2 in
      let first : find api t1 (key api r) ≡ some (r ∷ []) =
        ground (arith, find-insert api order t i r h.valid (key api r), absent) in
      let kept_r : find api t2 (key api r) ≡ some (r ∷ []) =
        ground (arith, find-insert api order t1 j s h1.valid (key api r), first, same) in
      let listed : has j (key api r) t2.by_oif ≡ true =
        ground (arith, has-insert_at api t1 j j (key api s) (key api r) s, same) in
      (
        t1,
        insert-at t r i ri,
        t2,
        insert-at t1 s j sj,
        kept_r,
        t3,
        addrs,
        removed,
        ground (arith, gone (key api r), listed),
      )
