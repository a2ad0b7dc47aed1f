-- ===== src/Route/Api.antt =====
-- What network-daemon/src/route uses of the vendored crate vendor/route_manager: the type `Route`
-- with its constructor, builders and accessors, and its order, which decides the sets of routes.
use Prim.Native.Nat.{Ordering}
use network_daemon.Prelude.{ℕ, ◌≡◌, Option, some}
use network_daemon.Ip.{IpAddr}

pub record RouteApi : Type 1 where
  pub Route : Type 0
  pub new : IpAddr → ℕ → Route
  pub with_gateway : Route → IpAddr → Route
  pub with_if_index : Route → ℕ → Route
  pub destination : Route → IpAddr
  pub prefix : Route → ℕ
  pub gateway : Route → Option IpAddr
  pub if_index : Route → Option ℕ
  pub cmp : Route → Route → Ordering
  pub destination-new : (d : IpAddr) (p : ℕ) → destination (new d p) ≡ d
  pub prefix-new : (d : IpAddr) (p : ℕ) → prefix (new d p) ≡ p
  pub destination-with_gateway :
      (r : Route) (g : IpAddr) → destination (with_gateway r g) ≡ destination r
  pub prefix-with_gateway : (r : Route) (g : IpAddr) → prefix (with_gateway r g) ≡ prefix r
  pub gateway-with_gateway : (r : Route) (g : IpAddr) → gateway (with_gateway r g) ≡ some g
  pub destination-with_if_index :
      (r : Route) (i : ℕ) → destination (with_if_index r i) ≡ destination r
  pub prefix-with_if_index : (r : Route) (i : ℕ) → prefix (with_if_index r i) ≡ prefix r
  pub gateway-with_if_index : (r : Route) (i : ℕ) → gateway (with_if_index r i) ≡ gateway r
  pub if_index-with_if_index : (r : Route) (i : ℕ) → if_index (with_if_index r i) ≡ some i
  pub cmp_refl : (r : Route) → cmp r r ≡ Ordering.eq
