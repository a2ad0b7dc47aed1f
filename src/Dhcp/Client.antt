-- ===== src/Dhcp/Client.antt =====
-- network-daemon/src/dhcp/client.rs: the transactions of the DHCP client, and its handler of lease
-- events. `none` is a panic.
-- What happens to the client from outside is a list of arrivals: a message of a server, the end or an
-- error of the socket, or that the timeout of the current attempt runs out. No arrival that is left is
-- a timeout. The packets that the client sends and what it tells the manager are kept in the state.
pub mod Receive
use network_daemon.Prelude.{
  ℕ, zero, suc, Option, none, some, List, [], ◌∷◌, ◌++◌, Bool, true, false, if◌then◌else◌, Result,
  ok, err, ok_or, length, ℕ_key, ◌===◌,
}
use network_daemon.Dhcp.Lease.{
  Lease, LeaseBuilder, new, set_assigned_ip, set_server_id, set_subnet_mask, set_router,
  add_dns_server, set_lease_time, set_renewal_time, set_rebinding_time, build,
}
use network_daemon.Dhcp.Attempt.{
  AttemptError, critical_error, Outcome, break_with, continue_on, elapsed, attempt,
}

-- The message types and options of `dhcproto::v4` that the client tells apart.
pub data MessageType : Type 0 where
  discover offer request ack nak release decline other : MessageType

pub data DhcpOption : Type 0 where
  subnet_mask : ℕ → DhcpOption
  router : List ℕ → DhcpOption
  domain_name_server : List ℕ → DhcpOption
  address_lease_time : ℕ → DhcpOption
  renewal : ℕ → DhcpOption
  rebinding : ℕ → DhcpOption
  server_identifier : ℕ → DhcpOption
  unknown : DhcpOption

-- A received message: its transaction, its type, `yiaddr`, and its options in their order.
pub record Message : Type 0 where
  pub xid : ℕ
  pub msg_type : Option MessageType
  pub yiaddr : ℕ
  pub opts : List DhcpOption

-- A packet that the client sends: the header fields and options that it sets, and the addresses.
pub record Packet : Type 0 where
  pub xid : ℕ
  pub msg_type : MessageType
  pub ciaddr : Option ℕ
  pub requested_ip : Option ℕ
  pub server_id : Option ℕ
  pub params : Bool
  pub src : Option ℕ
  pub dest : Option ℕ

pub data DhcpClientError : Type 0 where
  dhcp_packet_encode_error ethernet_packet_build_error socket_error : DhcpClientError
  transaction_failed server_rejected invalid_response : DhcpClientError

pub data Arrival : Type 0 where
  message : Message → Arrival
  failed : Arrival
  time_out : Arrival

pub record DhcpClient : Type 0 where
  pub xid : ℕ
  pub lease : Option Lease
  pub transactions : ℕ
  pub inbox : List Arrival
  pub writes : ℕ
  pub sent : List Packet
  pub told : List (Option Lease × Option Lease)

-- `Result` of a step with the state that it leaves; no result is a panic.
abbrev pub Run : Type 0 → Type 0
Run A = Option (DhcpClient × Result DhcpClientError A)

-- `step?`, and the rest of the function.
unfoldable pub try_then : {A B : Type 0} → Run A → (A → DhcpClient → Run B) → Run B
try_then none k = none
try_then (some (s, ok a)) k = k a s
try_then (some (s, err e)) k = some (s, err e)

-- What a transaction makes of a message that has its `xid`; nothing if it waits on.
unfoldable pub offer_verdict : Message → Option (Result DhcpClientError Message)
offer_verdict m = elim m.msg_type [ some offer ↦ some (ok m) | _ ↦ none ]

unfoldable pub ack_verdict : Message → Option (Result DhcpClientError Message)
ack_verdict m = elim m.msg_type [
  | some ack ↦ some (ok m)
  | some nak ↦ some (err server_rejected)
  | _ ↦ none
]

-- The loop that reads the socket.
unfoldable pub wait :
    (Message → Option (Result DhcpClientError Message))
    → ℕ
    → List Arrival
    → List Arrival × Outcome DhcpClientError Message
wait verdict xid [] = ([], elapsed)
wait verdict xid (time_out ∷ inbox) = (inbox, elapsed)
wait verdict xid (failed ∷ inbox) = (inbox, continue_on)
wait verdict xid (message m ∷ inbox) =
    let rest = wait verdict xid inbox in
    if m.xid === xid
    then elim (verdict m) [ none ↦ rest | some r ↦ (inbox, break_with r) ]
    else rest

-- The call of `attempt` in a transaction, `f`.
unfoldable pub receive :
    (Message → Option (Result DhcpClientError Message))
    → ℕ
    → DhcpClient
    → Option (DhcpClient × Outcome DhcpClientError Message)
receive verdict timeout s =
    let (inbox, outcome) = wait verdict s.xid s.inbox in some (record s { inbox = inbox }, outcome)

-- `opts().get(OptionCode::ServerIdentifier)`.
unfoldable pub server_id_of : List DhcpOption → Option ℕ
server_id_of [] = none
server_id_of (server_identifier id ∷ opts) = some id
server_id_of (_ ∷ opts) = server_id_of opts

unfoldable pub add_dns_servers : LeaseBuilder → List ℕ → LeaseBuilder
add_dns_servers builder [] = builder
add_dns_servers builder (dns ∷ servers) = add_dns_servers (add_dns_server builder dns) servers

-- The loop of `request` over the options of the ACK; `router[0]` of an empty list is a panic.
unfoldable pub lease_options : List DhcpOption → LeaseBuilder → Option LeaseBuilder
lease_options [] builder = some builder
lease_options (subnet_mask mask ∷ opts) builder = lease_options opts (set_subnet_mask builder mask)
lease_options (router [] ∷ opts) builder = none
lease_options (router (r ∷ _) ∷ opts) builder = lease_options opts (set_router builder r)
lease_options (domain_name_server servers ∷ opts) builder =
    lease_options opts (add_dns_servers builder servers)
lease_options (address_lease_time time ∷ opts) builder =
    lease_options opts (set_lease_time builder time)
lease_options (renewal time ∷ opts) builder = lease_options opts (set_renewal_time builder time)
lease_options (rebinding time ∷ opts) builder = lease_options opts (set_rebinding_time builder time)
lease_options (server_identifier _ ∷ opts) builder = lease_options opts builder
lease_options (unknown ∷ opts) builder = lease_options opts builder

-- The loop of `renew` and of `rebind` over the options of the ACK.
unfoldable pub update_lease : List DhcpOption → Lease → Option Lease
update_lease [] lease = some lease
update_lease (subnet_mask mask ∷ opts) lease =
    update_lease opts (record lease { subnet_mask = mask })
update_lease (router [] ∷ opts) lease = none
update_lease (router (r ∷ _) ∷ opts) lease = update_lease opts (record lease { router = some r })
update_lease (domain_name_server servers ∷ opts) lease =
    update_lease opts (record lease { dns_servers = servers })
update_lease (address_lease_time time ∷ opts) lease =
    update_lease opts (record lease { lease_time = time })
update_lease (renewal time ∷ opts) lease = update_lease opts (record lease { renewal_time = time })
update_lease (rebinding time ∷ opts) lease =
    update_lease opts (record lease { rebinding_time = time })
update_lease (server_identifier _ ∷ opts) lease = update_lease opts lease
update_lease (unknown ∷ opts) lease = update_lease opts lease

-- The `map_err` after `attempt`.
unfoldable pub attempt_result :
    {A : Type 0} → Option (DhcpClient × Result (AttemptError DhcpClientError) A) → Run A
attempt_result none = none
attempt_result (some (s, ok a)) = some (s, ok a)
attempt_result (some (s, err (critical_error e))) = some (s, err e)
attempt_result (some (s, err _)) = some (s, err transaction_failed)
