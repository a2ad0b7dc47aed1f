-- ===== src/Route/Manager/Requests.antt =====
-- What the actor of network-daemon/src/route/mod.rs asks of the kernel.
use network_daemon.Prelude.{
  ℕ, ◌≡◌, ◌≢◌, refl, ◌∙◌, Option, none, some, List, [], ◌∷◌, ◌++◌, Bool, true, not, ℕ_key, ◌===◌,
  arith, inl, inr, Option-cases, Bool-cases,
}
use network_daemon.Prelude.Map
use network_daemon.Prelude.Set
use network_daemon.Ip.{PrefixedIpAddr, PrefixedIpv4Addr_key, PrefixedIpv6Addr_key}
use network_daemon.Interface.Info.{InterfaceInfo}
use network_daemon.Route.Api.{RouteApi}
use network_daemon.Route.Table
use network_daemon.Route.Table.{RouteTable, find_first, is_some_eq, cons_option}
use network_daemon.Route.Manager.{
  Request, add, delete, RouteManager, outputs_of, add_back, cleanup_routes, dead_rt_cleanup,
}

abbrev pub All {ℓ κ} : {A : Type ℓ} → (A → Type κ) → List A → Type κ
All P [] = Unit
All P (x ∷ xs) = P x × All P xs

pub All-append {ℓ κ} :
    {A : Type ℓ} (P : A → Type κ) (xs ys : List A) → All P xs → All P ys → All P (xs ++ ys)
All-append P [] ys h k = k
All-append P (x ∷ xs) ys (p, h) k = (p, All-append P xs ys h k)

find_first_sound {ℓ} :
    {A : Type ℓ} (p : A → Bool) (xs : List A) {x : A} → find_first p xs ≡ some x → p x ≡ true
unfolding find_first
find_first_sound p [] e = cc
find_first_sound p (y ∷ ys) {x} e = elim (Bool-cases (p y)) [
  | inl yes_p ↦ ground (arith, yes_p)
  | inr no_p ↦ find_first_sound p ys (rw (no_p, find_first) at e)
]

contains-find_first :
    (p : ℕ → Bool) (xs : List ℕ) {x : ℕ} → find_first p xs ≡ some x → Set.contains x xs ≡ true
unfolding find_first Set.contains
contains-find_first p [] e = cc
contains-find_first p (y ∷ ys) {x} e = elim (Bool-cases (p y)) [
  | inl yes_p ↦ ground (arith, yes_p)
  | inr no_p ↦ ground (arith, contains-find_first p ys (rw (no_p, find_first) at e))
]

module _ (api : RouteApi) (self : RouteManager api.Route) (id : ℕ) where
  open api use {Route, destination, prefix, if_index, new, with_if_index}

  -- A request of the cleanup for the interface `id`: it deletes a route of the interface, or adds one
  -- through another interface, which the backup table lists for the network of the route.
  abbrev pub IsCleanup : Request Route → Type 0
  IsCleanup (delete r) = if_index r ≡ some id
  IsCleanup (add r) =
      (j : ℕ) × (outputs : List ℕ) × (if_index r ≡ some j)
      × (j ≢ id)
      × (outputs_of api self (destination r) (prefix r) ≡ some outputs)
      × (Set.contains j outputs ≡ true)

  same_outputs :
      (rt : Route) (j : ℕ)
      → outputs_of api self
          (destination (with_if_index (new (destination rt) (prefix rt)) j))
          (prefix (with_if_index (new (destination rt) (prefix rt)) j))
        ≡ outputs_of api self (destination rt) (prefix rt)
  same_outputs rt j =
      rw (
        api.destination-with_if_index, api.destination-new, api.prefix-with_if_index,
        api.prefix-new,
      )

  add_back-IsCleanup :
      (rt : Route) (o : Option (List ℕ))
      → outputs_of api self (destination rt) (prefix rt) ≡ o
      → All IsCleanup (add_back api rt id o)
  unfolding add_back
  add_back-IsCleanup rt none _ = tt
  add_back-IsCleanup rt (some outputs) e =
      elim (Option-cases (find_first (λ oif. not (oif === id)) outputs)) [
        | inl miss ↦ rw (miss, add_back) tt
        | inr (j, hit) ↦
            let other : not (j === id) ≡ true = find_first_sound _ outputs hit in
            rw (hit, add_back)
              (
                (
                  j,
                  outputs,
                  api.if_index-with_if_index _ j,
                  ground (arith, other),
                  same_outputs rt j ∙ e,
                  contains-find_first _ outputs hit,
                ),
                tt,
              )
      ]

  cleanup_routes-IsCleanup :
      (rts : List Route)
      → All (λ rt. if_index rt ≡ some id) rts
      → All IsCleanup (cleanup_routes api self id rts)
  unfolding cleanup_routes
  cleanup_routes-IsCleanup [] _ = tt
  cleanup_routes-IsCleanup (rt ∷ rts) (own, rest) = (
    own,
    All-append IsCleanup _ (cleanup_routes api self id rts) (add_back-IsCleanup rt _ refl)
        (cleanup_routes-IsCleanup rts rest),
  )

  is_some_eq_sound : (o : Option ℕ) → is_some_eq o id ≡ true → o ≡ some id
  unfolding is_some_eq
  is_some_eq_sound none e = cc
  is_some_eq_sound (some i) e = ground arith

  routes_with_own :
      (addrs : List PrefixedIpAddr)
      → All (λ rt. if_index rt ≡ some id) (Table.routes_with api self.route_table id addrs)
  unfolding Table.routes_with cons_option
  routes_with_own [] = tt
  routes_with_own (addr ∷ addrs) =
      elim (Option-cases (
        find_first (λ rt. is_some_eq (if_index rt) id)
          (Map.set_or_default (Table.find api self.route_table addr)))) [
            | inl miss ↦ rw miss (routes_with_own addrs)
            | inr (rt, hit) ↦ rw hit (
              is_some_eq_sound _ (
                  find_first_sound _ (Map.set_or_default (Table.find api self.route_table addr))
                    hit),
              routes_with_own addrs,
            )
          ]

-- Every request of the cleanup for an interface deletes a route of that interface, or adds a route
-- through another interface that the backup table lists for the network of the route.
pub dead_rt_cleanup-IsCleanup :
    (api : RouteApi) (self : RouteManager api.Route) (info : InterfaceInfo)
    → All (IsCleanup api self info.id) (dead_rt_cleanup api self info)
unfolding dead_rt_cleanup Table.find_by_oif
dead_rt_cleanup-IsCleanup api self info =
    elim (Option-cases (Map.get info.id self.route_table.by_oif)) [
      | inl miss ↦ rw (miss, Table.find_by_oif, dead_rt_cleanup) tt
      | inr (addrs, hit) ↦
          rw (hit, Table.find_by_oif, dead_rt_cleanup)
            (cleanup_routes-IsCleanup api self info.id _ (routes_with_own api self info.id addrs))
    ]
