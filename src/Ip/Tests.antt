-- ===== src/Ip/Tests.antt =====
-- Tests of net_id, from the unit tests of libnetwork-daemon/src/ip.rs.
use network_daemon.Prelude.{◌≡◌, refl}
use network_daemon.Ip.{net_id_v4, unspecified_v4, PrefixedIpv4Addr}

masks_host_bits :
    net_id_v4 (record { addr = 0xc0a80137; prefix_len = 24 })
    ≡ record { addr = 0xc0a80100; prefix_len = 24 }
unfolding net_id_v4
masks_host_bits = refl

zero_prefix : net_id_v4 (record { addr = 0xc0a80105; prefix_len = 0 }) ≡ unspecified_v4
unfolding net_id_v4
zero_prefix = refl

-- 192.168.1.55/24.
abbrev host_v4 : PrefixedIpv4Addr
host_v4 = record { addr = 0xc0a80137; prefix_len = 24 }
