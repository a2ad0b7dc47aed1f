-- ===== src/Dhcp/Lease/Timers.antt =====
-- The timers of the leases that libnetwork-daemon/src/dhcp.rs builds.
use network_daemon.Prelude.{
  ℕ, ◌*◌, ◌/◌, ◌%◌, ◌^◌, ◌≤◌, ◌<◌, ◌≡◌, ◌↔◌, none, some, ok, ok_or, and_then, arith, Option-cases,
  inl, inr,
}
use network_daemon.Ip.{unwrap_or}
use network_daemon.Dhcp.Lease.{Lease, LeaseBuilder, build}

-- What a successful build has.
build_fields :
    (b : LeaseBuilder) (l : Lease)
    → build b ≡ ok l
    → (b.assigned_ip ≡ some l.assigned_ip)
      × (b.server_id ≡ some l.server_id)
      × (b.subnet_mask ≡ some l.subnet_mask)
      × (l.lease_time ≡ b.lease_time)
      × (l.renewal_time ≡ unwrap_or (b.lease_time / 2) b.renewal_time)
      × (l.rebinding_time ≡ unwrap_or (b.lease_time * 7 % 2 ^ 64 / 8 % 2 ^ 32) b.rebinding_time)
unfolding build ok_or and_then
build_fields b l built = elim (Option-cases b.assigned_ip) [
  | inl e ↦ ground (arith, e, built)
  | inr (x, ex) ↦ elim (Option-cases b.server_id) [
    | inl e ↦ ground (arith, e, ex, built)
    | inr (y, ey) ↦ elim (Option-cases b.subnet_mask) [
      | inl e ↦ ground (arith, e, ex, ey, built)
      | inr (z, ez) ↦ let same = rw (ex, ey, ez, build) at built in (cc, cc, cc, cc, cc, cc)
    ]
  ]
]

build_ok :
    (b : LeaseBuilder) (ip server mask : ℕ)
    → b.assigned_ip ≡ some ip
    → b.server_id ≡ some server
    → b.subnet_mask ≡ some mask
    → (l : Lease) × (build b ≡ ok l)
unfolding build ok_or and_then
build_ok b ip server mask e f g =
    let l : Lease = record {
      assigned_ip = ip;
      server_id = server;
      subnet_mask = mask;
      router = b.router;
      dns_servers = b.dns_servers;
      lease_time = b.lease_time;
      renewal_time = unwrap_or (b.lease_time / 2) b.renewal_time;
      rebinding_time = unwrap_or (b.lease_time * 7 % 2 ^ 64 / 8 % 2 ^ 32) b.rebinding_time;
    } in
    (l, ground (arith, e, f, g))

-- Building succeeds exactly when the address, the server and the mask are set, and then has them.
build_iff :
    (b : LeaseBuilder) (ip server mask : ℕ)
    → ((l : Lease) × (build b ≡ ok l)
        × (l.assigned_ip ≡ ip)
        × (l.server_id ≡ server)
        × (l.subnet_mask ≡ mask))
      ↔ ((b.assigned_ip ≡ some ip) × (b.server_id ≡ some server) × (b.subnet_mask ≡ some mask))
build_iff b ip server mask = (
  λ (l, built, i, s, m). let (x, y, z, _, _, _) = build_fields b l built in (cc, cc, cc),
  λ (e, f, g).
      let (l, built) = build_ok b ip server mask e f g in
      let (x, y, z, _, _, _) = build_fields b l built in
      (l, built, ground arith, ground arith, ground arith),
)

-- A lease that is built with neither timer set, for a time that fits in 32 bits, renews no later than
-- it rebinds, and rebinds no later than it ends, at 1/2 and 7/8 of its time.
pub build_timers :
    (b : LeaseBuilder) (l : Lease)
    → b.lease_time < 2 ^ 32
    → b.renewal_time ≡ none
    → b.rebinding_time ≡ none
    → build b ≡ ok l
    → (l.renewal_time ≤ l.rebinding_time)
      × (l.rebinding_time ≤ l.lease_time)
      × (l.renewal_time ≡ l.lease_time / 2)
      × (l.rebinding_time ≡ l.lease_time * 7 / 8)
unfolding unwrap_or
build_timers b l fits no_t1 no_t2 built =
    let (_, _, _, time, t1, t2) = build_fields b l built in
    let half : l.renewal_time ≡ l.lease_time / 2 = ground (arith, t1, no_t1, time) in
    let cut : l.rebinding_time ≡ b.lease_time * 7 % 2 ^ 64 / 8 % 2 ^ 32 =
      ground (arith, t2, no_t2) in
    (omega arith, omega arith, half, omega arith)
