-- ===== src/Dhcp/Lease.antt =====
-- libnetwork-daemon/src/dhcp.rs: a lease and its builder. An `Ipv4Addr` is its 32 bits, and times are
-- seconds in a `u32`.
pub mod Timers
use Prim.Native.String.{String}
use network_daemon.Prelude.{
  ℕ, ◌*◌, ◌/◌, ◌%◌, ◌^◌, Option, none, some, List, [], ◌∷◌, ◌++◌, Result, ok, err, ok_or, and_then,
}
use network_daemon.Ip.{unwrap_or}

pub record Lease : Type 0 where
  pub assigned_ip : ℕ
  pub server_id : ℕ
  pub subnet_mask : ℕ
  pub router : Option ℕ
  pub dns_servers : List ℕ
  pub lease_time : ℕ
  pub renewal_time : ℕ
  pub rebinding_time : ℕ

pub record LeaseBuilder : Type 0 where
  pub assigned_ip : Option ℕ
  pub server_id : Option ℕ
  pub subnet_mask : Option ℕ
  pub router : Option ℕ
  pub dns_servers : List ℕ
  pub lease_time : ℕ
  pub renewal_time : Option ℕ
  pub rebinding_time : Option ℕ

abbrev pub new : LeaseBuilder
new = record {
  assigned_ip = none;
  server_id = none;
  subnet_mask = none;
  router = none;
  dns_servers = [];
  lease_time = 0;
  renewal_time = none;
  rebinding_time = none;
}

unfoldable pub set_assigned_ip : LeaseBuilder → ℕ → LeaseBuilder
set_assigned_ip self ip = record self { assigned_ip = some ip }

unfoldable pub set_server_id : LeaseBuilder → ℕ → LeaseBuilder
set_server_id self server_id = record self { server_id = some server_id }

unfoldable pub set_subnet_mask : LeaseBuilder → ℕ → LeaseBuilder
set_subnet_mask self mask = record self { subnet_mask = some mask }

unfoldable pub set_router : LeaseBuilder → ℕ → LeaseBuilder
set_router self router = record self { router = some router }

unfoldable pub add_dns_server : LeaseBuilder → ℕ → LeaseBuilder
add_dns_server self dns = record self { dns_servers = self.dns_servers ++ dns ∷ [] }

unfoldable pub set_lease_time : LeaseBuilder → ℕ → LeaseBuilder
set_lease_time self lease_time = record self { lease_time = lease_time }

unfoldable pub set_renewal_time : LeaseBuilder → ℕ → LeaseBuilder
set_renewal_time self renewal_time = record self { renewal_time = some renewal_time }

unfoldable pub set_rebinding_time : LeaseBuilder → ℕ → LeaseBuilder
set_rebinding_time self rebinding_time = record self { rebinding_time = some rebinding_time }

-- `build`. The product is taken in a `u64`, and cut to a `u32`.
unfoldable pub build : LeaseBuilder → Result String Lease
unfolding unwrap_or ok_or and_then
build self =
    let renewal_time = unwrap_or (self.lease_time / 2) self.renewal_time in
    let rebinding_time =
      unwrap_or (self.lease_time * 7 % 2 ^ 64 / 8 % 2 ^ 32) self.rebinding_time in
    and_then (ok_or self.assigned_ip "Assigned IP is required") (λ assigned_ip.
      and_then (ok_or self.server_id "Server ID is required") (λ server_id.
        and_then (ok_or self.subnet_mask "Subnet mask is required") (λ subnet_mask. ok (record {
          assigned_ip = assigned_ip;
          server_id = server_id;
          subnet_mask = subnet_mask;
          router = self.router;
          dns_servers = self.dns_servers;
          lease_time = self.lease_time;
          renewal_time = renewal_time;
          rebinding_time = rebinding_time;
        }))))
