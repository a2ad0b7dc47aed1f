-- ===== src/Ip/NetId.antt =====
-- What `net_id` of libnetwork-daemon/src/ip.rs computes, as arithmetic.
use Prim.Native.Nat.{bit_and}
use network_daemon.Prelude.{
  ℕ, ◌&&◌, ◌+◌, ◌-◌, ◌*◌, ◌/◌, ◌%◌, ◌^◌, ◌≤◌, ◌<◌, ◌≡◌, ◌↔◌, refl, sym, ap, ◌∙◌, ◌==◌, true, Bool,
  arith,
}
use native.Mathlib.Nat.{mul-div_cancel, one-le-pow, div-mul-le_self}
use network_daemon.Prelude.Bits.{all_below, all_below_sound, and-mask}
use network_daemon.Ip.{
  PrefixedIpv4Addr, PrefixedIpv6Addr, net_id_v4, net_id_v6, checked_shl, unwrap_or,
}

-- The mask is a run of ones over the network part, for each prefix length that an address admits.
mask_v4_test : ℕ → Bool
mask_v4_test p =
    let shift = (32 + 2 ^ 32 - p) % 2 ^ 32 in
    unwrap_or 0 (checked_shl 32 (2 ^ 32 - 1) shift) == (2 ^ p - 1) * 2 ^ (32 - p)
    && 2 ^ p * 2 ^ (32 - p) == 2 ^ 32

mask_v4_table : all_below 33 mask_v4_test ≡ true
unfolding all_below mask_v4_test checked_shl unwrap_or
mask_v4_table = refl

mask_v6_test : ℕ → Bool
mask_v6_test p =
    let shift = (128 + 2 ^ 32 - p) % 2 ^ 32 in
    unwrap_or 0 (checked_shl 128 (2 ^ 128 - 1) shift) == (2 ^ p - 1) * 2 ^ (128 - p)
    && 2 ^ p * 2 ^ (128 - p) == 2 ^ 128

mask_v6_table : all_below 129 mask_v6_test ≡ true
unfolding all_below mask_v6_test checked_shl unwrap_or
mask_v6_table = refl

both : {a b c d : ℕ} → (a == b && c == d) ≡ true → (a ≡ b) × (c ≡ d)
both h = ground arith

mask_v4 :
    (p : ℕ)
    → p ≤ 32
    → (unwrap_or 0 (checked_shl 32 (2 ^ 32 - 1) ((32 + 2 ^ 32 - p) % 2 ^ 32))
        ≡ (2 ^ p - 1) * 2 ^ (32 - p))
      × (2 ^ p * 2 ^ (32 - p) ≡ 2 ^ 32)
unfolding mask_v4_test
mask_v4 p h = both (all_below_sound 33 mask_v4_test mask_v4_table p (omega arith))

mask_v6 :
    (p : ℕ)
    → p ≤ 128
    → (unwrap_or 0 (checked_shl 128 (2 ^ 128 - 1) ((128 + 2 ^ 32 - p) % 2 ^ 32))
        ≡ (2 ^ p - 1) * 2 ^ (128 - p))
      × (2 ^ p * 2 ^ (128 - p) ≡ 2 ^ 128)
unfolding mask_v6_test
mask_v6 p h = both (all_below_sound 129 mask_v6_test mask_v6_table p (omega arith))

-- The network id of an IPv4 address of 32 bits, with a prefix length of at most 32, is the address
-- with its 32 - prefix_len low bits cleared; the prefix length is kept.
net_id_v4_lem :
    (p : PrefixedIpv4Addr)
    → p.addr < 2 ^ 32
    → p.prefix_len ≤ 32
    → net_id_v4 p ≡ record p { addr = p.addr / 2 ^ (32 - p.prefix_len) * 2 ^ (32 - p.prefix_len) }
unfolding net_id_v4
net_id_v4_lem p fits prefix =
    let k = 32 - p.prefix_len in
    let (mask, width) = mask_v4 p.prefix_len prefix in
    λ i. record p {
      addr = (ap (bit_and p.addr) mask ∙ and-mask p.addr k p.prefix_len (rw width fits)) i;
    }

-- The same for an IPv6 address of 128 bits, with a prefix length of at most 128.
net_id_v6_lem :
    (p : PrefixedIpv6Addr)
    → p.addr < 2 ^ 128
    → p.prefix_len ≤ 128
    → net_id_v6 p ≡ record p { addr = p.addr / 2 ^ (128 - p.prefix_len) * 2 ^ (128 - p.prefix_len) }
unfolding net_id_v6
net_id_v6_lem p fits prefix =
    let k = 128 - p.prefix_len in
    let (mask, width) = mask_v6 p.prefix_len prefix in
    λ i. record p {
      addr = (ap (bit_and p.addr) mask ∙ and-mask p.addr k p.prefix_len (rw width fits)) i;
    }

div-mul-div : (a k : ℕ) → a / 2 ^ k * 2 ^ k / 2 ^ k ≡ a / 2 ^ k
div-mul-div a k = mul-div_cancel (a / 2 ^ k) (one-le-pow k 2 (omega arith))

-- Two IPv4 addresses of 32 bits with one prefix length of at most 32 have the same network id
-- exactly when they agree above their host bits.
net_id_v4_eq_iff :
    (a b n : ℕ)
    → a < 2 ^ 32
    → b < 2 ^ 32
    → n ≤ 32
    → (net_id_v4 (record { addr = a; prefix_len = n })
        ≡ net_id_v4 (record { addr = b; prefix_len = n }))
      ↔ (a / 2 ^ (32 - n) ≡ b / 2 ^ (32 - n))
net_id_v4_eq_iff a b n ha hb hn =
    let ea = net_id_v4_lem (record { addr = a; prefix_len = n }) ha hn in
    let eb = net_id_v4_lem (record { addr = b; prefix_len = n }) hb hn in
    let k = 32 - n in
    (
      λ e.
          let same : a / 2 ^ k * 2 ^ k ≡ b / 2 ^ k * 2 ^ k =
            ap (λ (p : PrefixedIpv4Addr). p.addr) (sym ea ∙ e ∙ eb) in
          sym (div-mul-div a k) ∙ ap (λ t. t / 2 ^ k) same ∙ div-mul-div b k,
      λ e. ea ∙ (λ i. record { addr = e i * 2 ^ k; prefix_len = n }) ∙ sym eb,
    )

-- The network id of a network id is that network id, for an IPv4 address of 32 bits with a prefix
-- length of at most 32.
net_id_v4-net_id_v4 :
    (p : PrefixedIpv4Addr)
    → p.addr < 2 ^ 32
    → p.prefix_len ≤ 32
    → net_id_v4 (net_id_v4 p) ≡ net_id_v4 p
net_id_v4-net_id_v4 p fits prefix =
    let k = 32 - p.prefix_len in
    let e = net_id_v4_lem p fits prefix in
    let low : p.addr / 2 ^ k * 2 ^ k ≤ p.addr = div-mul-le_self p.addr (2 ^ k) in
    rw e (
      net_id_v4_lem (record p { addr = p.addr / 2 ^ k * 2 ^ k }) (omega arith) prefix
      ∙ (λ i. record p { addr = div-mul-div p.addr k i * 2 ^ k }))
