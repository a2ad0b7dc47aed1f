-- ===== src/Dhcp/Tests.antt =====
-- Runs of the DHCP client of network-daemon/src/dhcp and libnetwork-daemon/src/dhcp.rs.
use network_daemon.Prelude.{
  ℕ, suc, ◌≡◌, refl, ◌*◌, ◌/◌, ◌≤◌, Option, none, some, List, [], ◌∷◌, Bool, true, Result, ok, err,
  arith, ok_or, and_then, ℕ_discrete,
}
use network_daemon.Ip.{unwrap_or}
use network_daemon.Dhcp.Lease
use network_daemon.Dhcp.Lease.{Lease, LeaseBuilder, build}
use network_daemon.Dhcp.Lease.Timers.{build_timers}
use network_daemon.Dhcp.Attempt.{AttemptError, Outcome, break_with, continue_on, attempt}
use network_daemon.Dhcp.Attempt.Rounds.{attempt_total, attempt-none_panics}
use network_daemon.Dhcp.Client.{
  MessageType, DhcpOption, Message, Packet, DhcpClientError, server_rejected, Arrival, message,
  time_out, DhcpClient, wait, ack_verdict, offer_verdict, receive, server_id_of, update_lease,
}
use network_daemon.Dhcp.Transactions.{renewal, request, renew, handle}
use network_daemon.Dhcp.Watchdog.{Stages, deadline, next_event}
use network_daemon.Dhcp.Watchdog.Order.{IsLatest, next_event-IsLatest}
use network_daemon.Dhcp.Transactions.Reports.{Report, handle-Report}
use network_daemon.Dhcp.Transactions.Extension.{Extends, renew-Extends}

abbrev builder : LeaseBuilder
builder = record Lease.new {
  assigned_ip = some 0xc0a80132;
  server_id = some 0xc0a80101;
  subnet_mask = some 0xffffff00;
  lease_time = 3600;
}

-- The lease that the unit tests of libnetwork-daemon/src/dhcp.rs build.
abbrev lease : Lease
lease = record {
  assigned_ip = 0xc0a80132;
  server_id = 0xc0a80101;
  subnet_mask = 0xffffff00;
  router = none;
  dns_servers = [];
  lease_time = 3600;
  renewal_time = 1800;
  rebinding_time = 3150;
}

built : build builder ≡ ok lease
unfolding build unwrap_or ok_or and_then
built = refl

build_timers_example :
    (lease.renewal_time ≤ lease.rebinding_time)
    × (lease.rebinding_time ≤ lease.lease_time)
    × (lease.renewal_time ≡ lease.lease_time / 2)
    × (lease.rebinding_time ≡ lease.lease_time * 7 / 8)
build_timers_example = build_timers builder lease (omega arith) refl refl built

-- A step that counts its calls and never breaks, and one that breaks at once.
abbrev counting : ℕ → ℕ → Option (ℕ × Outcome ℕ ℕ)
counting t s = some (suc s, continue_on)

abbrev breaking : ℕ → ℕ → Option (ℕ × Outcome ℕ ℕ)
breaking t s = some (suc s, break_with (ok 7))

abbrev prepare : ℕ → ℕ × Bool
prepare s = (s, true)

attempt_total_example :
    (p : ℕ × Result (AttemptError ℕ) ℕ) × (attempt prepare counting (some 5) 3 0 ≡ some p)
attempt_total_example =
    attempt_total prepare counting 5 3 0 (λ t s. (suc s, continue_on, refl)) (omega arith)

attempt-none_panics_example : attempt prepare counting none 3 0 ≡ none
attempt-none_panics_example = attempt-none_panics prepare counting 2 0 1 1 refl refl

breaks : attempt prepare breaking (some 5) 3 0 ≡ some (1, ok 7)
unfolding attempt
breaks = refl

abbrev random : ℕ → ℕ
random n = 100

abbrev writable : ℕ → Bool
writable n = true

abbrev packet_error : Packet → Option DhcpClientError
packet_error p = none

abbrev offered : Message
offered = record {
  xid = 100;
  msg_type = some MessageType.offer;
  yiaddr = 0xc0a80132;
  opts = DhcpOption.server_identifier 0xc0a80101 ∷ [];
}

abbrev acked : Message
acked = record {
  xid = 100;
  msg_type = some MessageType.ack;
  yiaddr = 0xc0a80132;
  opts = DhcpOption.address_lease_time 7200 ∷ [];
}

abbrev nacked : Message
nacked = record { xid = 100; msg_type = some MessageType.nak; yiaddr = 0; opts = [] }

abbrev inbox : List Arrival
inbox = message offered ∷ message acked ∷ []

waited : wait ack_verdict 100 inbox ≡ ([], break_with (ok acked))
unfolding wait ℕ_discrete ack_verdict
waited = refl

-- A client that is to be answered as the list says.
abbrev client : List Arrival → DhcpClient
client arrivals = record {
  xid = 0;
  lease = some lease;
  transactions = 0;
  inbox = arrivals;
  writes = 0;
  sent = [];
  told = [];
}

abbrev extended : Lease
extended = record lease { lease_time = 7200 }

abbrev renewing : DhcpClient
renewing = client (time_out ∷ message offered ∷ message acked ∷ [])

abbrev renewed : DhcpClient
renewed = elim (renew random writable packet_error renewing) [ none ↦ renewing | some (s, r) ↦ s ]

abbrev told_manager : DhcpClient
told_manager = record renewed { lease = some extended; told = (some lease, some extended) ∷ [] }

renews : renew random writable packet_error renewing ≡ some (renewed, ok extended)
unfolding renew attempt receive wait ℕ_discrete ack_verdict update_lease
renews = refl

renew-Extends_example : Extends renewing extended
renew-Extends_example = renew-Extends random writable packet_error renewing renewed extended renews

handles :
    handle random writable packet_error renewal renewing
    ≡ some (told_manager, ok (1800, 3150, 7200))
unfolding handle attempt receive wait ℕ_discrete ack_verdict update_lease
handles = refl

handle-Report_example : Report renewing told_manager (ok (1800, 3150, 7200))
handle-Report_example =
    handle-Report random writable packet_error renewal renewing told_manager (ok (1800, 3150, 7200))
      handles

abbrev rejecting : DhcpClient
rejecting = client (message offered ∷ message nacked ∷ [])

abbrev rejected : DhcpClient
rejected = elim (request random writable packet_error rejecting) [
  | none ↦ rejecting
  | some (s, r) ↦ s
]

rejects : request random writable packet_error rejecting ≡ some (rejected, err server_rejected)
unfolding request attempt receive wait ℕ_discrete offer_verdict server_id_of ack_verdict
rejects = refl

abbrev stages : Stages
stages = record { renewal_deadline = 1800; rebinding_deadline = 3150; lease_deadline = 3600 }

-- The host was suspended: the sleep until second 1800 ends at second 3200.
abbrev late_wake : ℕ → ℕ
late_wake d = 3200

first_deadline : deadline stages 0 ≡ some 1800
unfolding deadline
first_deadline = refl

next_event-IsLatest_example :
    (idx : ℕ) × (next_event stages late_wake 0 ≡ some (idx, suc idx))
    × (0 ≤ idx)
    × IsLatest stages 3200 idx
next_event-IsLatest_example =
    next_event-IsLatest stages late_wake 0 1800 first_deadline (omega arith)
