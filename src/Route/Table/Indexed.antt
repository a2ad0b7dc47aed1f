-- ===== src/Route/Table/Indexed.antt =====
-- The well-formedness of the table of network-daemon/src/route/table.rs, with the order that the
-- vendored crate gives routes on FreeBSD.
use Prim.Native.Nat.{compare, Ordering}
use network_daemon.Prelude.{
  ℕ, ◌≡◌, ◌⊎◌, ◌=?◌, refl, sym, ◌∙◌, ap, Option, none, some, List, [], ◌∷◌, true, false, ◌&&◌,
  if◌then◌else◌, ℕ_key, ◌===◌, arith, inl, inr,
}
use network_daemon.Prelude.Map
use network_daemon.Prelude.Map.{has}
use network_daemon.Prelude.Set
use network_daemon.Prelude.Sorted
use network_daemon.Ip.{IpAddr, PrefixedIpAddr, PrefixedIpAddr_key, into_prefixed}
use network_daemon.Route.Api.{RouteApi}
use network_daemon.Route.Table.{RouteTable, empty, insert_at, remove, find}
use network_daemon.Route.Table.Laws.{
  key, find-insert_at, has-insert_at, remove_found, remove_missing,
}

-- `impl Ord for Route` on FreeBSD: the prefix lengths alone are compared.
abbrev pub ByPrefix : RouteApi → Type 0
ByPrefix api = (r s : api.Route) → api.cmp r s ≡ compare (api.prefix r) (api.prefix s)

prefix_of : PrefixedIpAddr → ℕ
prefix_of (PrefixedIpAddr.v4 a) = a.prefix_len
prefix_of (PrefixedIpAddr.v6 a) = a.prefix_len

prefix_of-into_prefixed : (d : IpAddr) (p : ℕ) → prefix_of (into_prefixed d p) ≡ p
unfolding prefix_of into_prefixed
prefix_of-into_prefixed (IpAddr.v4 a) p = refl
prefix_of-into_prefixed (IpAddr.v6 a) p = refl

module _ (api : RouteApi) where
  open api use {Route, destination, prefix, if_index, cmp}

  -- A destination with one route, which is stored under its own key and names its interface.
  pub record Single (t : RouteTable Route) (a : PrefixedIpAddr) : Type 0 where
    pub route : Route
    pub oif : ℕ
    pub found : find api t a ≡ some (route ∷ [])
    pub keyed : key api route ≡ a
    pub indexed : if_index route ≡ some oif

  -- Every destination has no route or one.
  abbrev pub IsKeyed : RouteTable Route → Type 0
  IsKeyed t = (a : PrefixedIpAddr) → (find api t a ≡ none) ⊎ Single t a

  pub same_entry :
      (t t' : RouteTable Route) (a : PrefixedIpAddr)
      → find api t' a ≡ find api t a
      → (find api t a ≡ none) ⊎ Single t a
      → (find api t' a ≡ none) ⊎ Single t' a
  same_entry t t' a same (inl e) = inl (same ∙ e)
  same_entry t t' a same (inr one) = inr (record {
    route = one.route;
    oif = one.oif;
    found = same ∙ one.found;
    keyed = one.keyed;
    indexed = one.indexed;
  })

  -- Besides, the destination of each route is listed under the route's interface.
  pub record IsIndexed (t : RouteTable Route) : Type 0 where
    pub valid : IsKeyed t
    pub tracked :
        (a : PrefixedIpAddr) (r : Route) (oif : ℕ)
        → find api t a ≡ some (r ∷ [])
        → if_index r ≡ some oif
        → has oif a t.by_oif ≡ true

  same_key-same_prefix : (r s : Route) → key api r ≡ key api s → prefix r ≡ prefix s
  same_key-same_prefix r s e =
      sym (prefix_of-into_prefixed (destination r) (prefix r))
      ∙ ap prefix_of e
      ∙ prefix_of-into_prefixed (destination s) (prefix s)

  same_key-cmp : ByPrefix api → (r s : Route) → key api r ≡ key api s → cmp r s ≡ Ordering.eq
  same_key-cmp order r s e = ground (arith, order r s, same_key-same_prefix r s e)

  pub empty-IsIndexed : IsIndexed (empty api)
  unfolding find Map.get
  empty-IsIndexed = record {
    valid = elim [ PrefixedIpAddr.v4 a ↦ inl refl | PrefixedIpAddr.v6 a ↦ inl refl ];
    tracked = elim [
      | PrefixedIpAddr.v4 a ↦ λ r oif e i. cc
      | PrefixedIpAddr.v6 a ↦ λ r oif e i. cc
    ];
  }

  -- What an insertion stores under the key of the route: the route that was there, or the new one.
  abbrev pub kept : Option (List Route) → Route → List Route
  kept none s = s ∷ []
  kept (some rs) s = rs

  module _ (order : ByPrefix api) where
    -- Inserting a route puts it under its key if there is no route under the key, and else changes
    -- no destination.
    pub find-insert :
        (t : RouteTable Route) (oif : ℕ) (s : Route)
        → IsKeyed t
        → (a : PrefixedIpAddr)
        → find api (insert_at api t oif (key api s) s) a
          ≡ (if key api s === a then some (kept (find api t (key api s)) s) else find api t a)
    unfolding Sorted.insert Map.set_or_default
    find-insert t oif s h a = elim (h (key api s)) [
      | inl e ↦ ground (arith, find-insert_at api t oif (key api s) a s, e)
      | inr one ↦ ground (
        arith,
        find-insert_at api t oif (key api s) a s,
        one.found,
        same_key-cmp order s one.route (sym one.keyed),
      )
    ]

    insert_at-entry :
        (t : RouteTable Route) (oif : ℕ) (s : Route)
        → if_index s ≡ some oif
        → IsKeyed t
        → IsKeyed (insert_at api t oif (key api s) s)
    insert_at-entry t oif s i h a = elim (key api s =? a) [
      | no n ↦ same_entry t _ a (ground (arith, find-insert t oif s h a)) (h a)
      | yes p ↦ elim (h (key api s)) [
        | inl e ↦ inr (record {
          route = s;
          oif = oif;
          found = ground (arith, find-insert t oif s h a);
          keyed = p;
          indexed = i;
        })
        | inr one ↦ inr (record {
          route = one.route;
          oif = one.oif;
          found = ground (arith, find-insert t oif s h a, one.found);
          keyed = one.keyed ∙ p;
          indexed = one.indexed;
        })
      ]
    ]

    -- Inserting a route at its interface keeps the table well-formed.
    pub insert_at-IsIndexed :
        (t : RouteTable Route) (oif : ℕ) (s : Route)
        → if_index s ≡ some oif
        → IsIndexed t
        → IsIndexed (insert_at api t oif (key api s) s)
    insert_at-IsIndexed t oif s i h = record {
      valid = insert_at-entry t oif s i h.valid;
      tracked = λ a r j found indexed. elim (h.valid (key api s)) [
        | inl e ↦ ground (
          arith,
          find-insert t oif s h.valid a,
          has-insert_at api t oif j (key api s) a s,
          h.tracked a r j,
        )
        | inr one ↦ ground (
          arith,
          find-insert t oif s h.valid a,
          has-insert_at api t oif j (key api s) a s,
          h.tracked a r j,
          one.found,
        )
      ];
    }

  remove-Single :
      (t : RouteTable Route) (b : PrefixedIpAddr) (one : Single t b)
      → (t' : RouteTable Route) × (remove api t b ≡ some (t', some one.route))
        × ((a : PrefixedIpAddr) → find api t' a ≡ (if b === a then none else find api t a))
        × ((j : ℕ) (a : PrefixedIpAddr)
            → has j a t'.by_oif ≡ (if j === one.oif && b === a then false else has j a t.by_oif))
  unfolding Set.is_empty
  remove-Single t b one = remove_found api t b one.route [] one.oif one.found one.indexed

  -- What a removal does on a table with at most one route to a destination: it always has a result,
  -- the destination is gone, and every other destination is as before.
  pub remove_keyed :
      (t : RouteTable Route) (b : PrefixedIpAddr)
      → IsKeyed t
      → (t' : RouteTable Route) × (r : Option Route) × (remove api t b ≡ some (t', r))
        × ((a : PrefixedIpAddr) → find api t' a ≡ (if b === a then none else find api t a))
  unfolding Map.set_or_default
  remove_keyed t b h = elim (h b) [
    | inl e ↦ (t, none, remove_missing api t b (rw e), λ a. ground (arith, e))
    | inr one ↦ let (t', e, gone, _) = remove-Single t b one in (t', some one.route, e, gone)
  ]

  pub IsKeyed-without :
      (t t' : RouteTable Route) (b : PrefixedIpAddr)
      → ((a : PrefixedIpAddr) → find api t' a ≡ (if b === a then none else find api t a))
      → IsKeyed t
      → IsKeyed t'
  IsKeyed-without t t' b gone h a = elim (b =? a) [
    | yes p ↦ inl (ground (arith, gone a))
    | no n ↦ same_entry t t' a (ground (arith, gone a)) (h a)
  ]

  -- On a well-formed table a removal always has a result, the destination is gone, every other
  -- destination is as before, and the table is well-formed again.
  pub remove-IsIndexed :
      (t : RouteTable Route) (b : PrefixedIpAddr)
      → IsIndexed t
      → (t' : RouteTable Route) × (r : Option Route) × (remove api t b ≡ some (t', r))
        × ((a : PrefixedIpAddr) → find api t' a ≡ (if b === a then none else find api t a))
        × IsIndexed t'
  unfolding Map.set_or_default
  remove-IsIndexed t b h = elim (h.valid b) [
    | inl e ↦ (t, none, remove_missing api t b (rw e), λ a. ground (arith, e), h)
    | inr one ↦
        let (t', e, gone, oifs) = remove-Single t b one in
        (
          t',
          some one.route,
          e,
          gone,
          record {
            valid = IsKeyed-without t t' b gone h.valid;
            tracked = λ a r j found indexed. ground (arith, gone a, oifs j a, h.tracked a r j);
          },
        )
  ]
