-- ===== src/Ip.antt =====
-- libnetwork-daemon/src/ip.rs: addresses with a prefix length, and their network part.
-- An `Ipv4Addr` is its `to_bits()`, a number below 2 ^ 32, and an `Ipv6Addr` one below 2 ^ 128.
pub mod NetId
mod Tests
use Prim.Native.Nat.{bit_and}
use network_daemon.Prelude.{
  ℕ, ◌+◌, ◌-◌, ◌*◌, ◌%◌, ◌^◌, ◌<◌, Option, none, some, ltb, if◌then◌else◌, Key, ℕ_discrete,
}

pub record PrefixedIpv4Addr : Type 0 where
  pub addr : ℕ
  pub prefix_len : ℕ

pub record PrefixedIpv6Addr : Type 0 where
  pub addr : ℕ
  pub prefix_len : ℕ

pub data PrefixedIpAddr : Type 0 where
  v4 : PrefixedIpv4Addr → PrefixedIpAddr
  v6 : PrefixedIpv6Addr → PrefixedIpAddr

-- `std::net::IpAddr`.
pub data IpAddr : Type 0 where
  v4 : ℕ → IpAddr
  v6 : ℕ → IpAddr

-- The derived `PartialEq` and `Hash`: equality field by field.
unfoldable pub PrefixedIpv4Addr_discrete : Discrete PrefixedIpv4Addr
unfolding ℕ_discrete
PrefixedIpv4Addr_discrete = hlevel ℕ_discrete

unfoldable pub PrefixedIpv6Addr_discrete : Discrete PrefixedIpv6Addr
unfolding ℕ_discrete
PrefixedIpv6Addr_discrete = hlevel ℕ_discrete

unfoldable pub PrefixedIpAddr_discrete : Discrete PrefixedIpAddr
unfolding PrefixedIpv4Addr_discrete PrefixedIpv6Addr_discrete
PrefixedIpAddr_discrete = hlevel (PrefixedIpv4Addr_discrete, PrefixedIpv6Addr_discrete)

instance abbrev pub PrefixedIpv4Addr_key : Key PrefixedIpv4Addr
PrefixedIpv4Addr_key = record { eq? = PrefixedIpv4Addr_discrete }

instance abbrev pub PrefixedIpv6Addr_key : Key PrefixedIpv6Addr
PrefixedIpv6Addr_key = record { eq? = PrefixedIpv6Addr_discrete }

instance abbrev pub PrefixedIpAddr_key : Key PrefixedIpAddr
PrefixedIpAddr_key = record { eq? = PrefixedIpAddr_discrete }

abbrev pub unspecified_v4 : PrefixedIpv4Addr
unspecified_v4 = record { addr = 0; prefix_len = 0 }

abbrev pub unspecified_v6 : PrefixedIpv6Addr
unspecified_v6 = record { addr = 0; prefix_len = 0 }

-- `a.checked_shl(k)` on words of `w` bits: `none` from a shift by the whole width on, and else
-- the bits that stay in the word.
unfoldable pub checked_shl : ℕ → ℕ → ℕ → Option ℕ
checked_shl w a k = if ltb k w then some (a * 2 ^ k % 2 ^ w) else none

unfoldable pub unwrap_or {ℓ} : {A : Type ℓ} → A → Option A → A
unwrap_or d none = d
unwrap_or d (some a) = a

-- `PrefixedIpv4Addr::net_id`. `32 - self.prefix_len as u32` wraps around on `u32`.
unfoldable pub net_id_v4 : PrefixedIpv4Addr → PrefixedIpv4Addr
unfolding checked_shl unwrap_or
net_id_v4 self =
    let shift = (32 + 2 ^ 32 - self.prefix_len) % 2 ^ 32 in
    let mask = unwrap_or 0 (checked_shl 32 (2 ^ 32 - 1) shift) in
    record { addr = bit_and self.addr mask; prefix_len = self.prefix_len }

-- `PrefixedIpv6Addr::net_id`.
unfoldable pub net_id_v6 : PrefixedIpv6Addr → PrefixedIpv6Addr
unfolding checked_shl unwrap_or
net_id_v6 self =
    let shift = (128 + 2 ^ 32 - self.prefix_len) % 2 ^ 32 in
    let mask = unwrap_or 0 (checked_shl 128 (2 ^ 128 - 1) shift) in
    record { addr = bit_and self.addr mask; prefix_len = self.prefix_len }

-- `IpAddr::into_prefixed`.
unfoldable pub into_prefixed : IpAddr → ℕ → PrefixedIpAddr
into_prefixed (IpAddr.v4 a) prefix_len =
    PrefixedIpAddr.v4 (record { addr = a; prefix_len = prefix_len })
into_prefixed (IpAddr.v6 a) prefix_len =
    PrefixedIpAddr.v6 (record { addr = a; prefix_len = prefix_len })
