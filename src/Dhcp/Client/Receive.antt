-- ===== src/Dhcp/Client/Receive.antt =====
-- What the client of network-daemon/src/dhcp/client.rs takes for an answer, and what it takes over from
-- one.
use network_daemon.Prelude.{
  ℕ, ◌≡◌, refl, Option, some, List, [], ◌∷◌, ℕ_key, ◌=?◌, Result, ok, arith, Option-cases, inl, inr,
  In,
}
use network_daemon.Dhcp.Lease.{Lease}
use network_daemon.Dhcp.Attempt.{break_with}
use network_daemon.Dhcp.Client.{
  MessageType, DhcpOption, Message, DhcpClientError, Arrival, message, failed, time_out, wait,
  ack_verdict, update_lease, subnet_mask, router, domain_name_server, address_lease_time, renewal,
  rebinding, server_identifier, unknown,
}

wait_verdict :
    (verdict : Message → Option (Result DhcpClientError Message)) (xid : ℕ)
    (inbox rest : List Arrival) (r : Result DhcpClientError Message)
    → wait verdict xid inbox ≡ (rest, break_with r)
    → (m : Message) × In (message m) inbox × (m.xid ≡ xid) × (verdict m ≡ some r)
unfolding wait
wait_verdict verdict xid [] rest r e = cc
wait_verdict verdict xid (time_out ∷ inbox) rest r e = cc
wait_verdict verdict xid (failed ∷ inbox) rest r e = cc
wait_verdict verdict xid (message m ∷ inbox) rest r e = elim (m.xid =? xid) [
  | yes own ↦ elim (Option-cases (verdict m)) [
    | inl waits ↦
        let (k, inside, same, judged) =
          wait_verdict verdict xid inbox rest r (ground (arith, waits, e)) in
        (k, inr inside, same, judged)
    | inr (q, judged) ↦ (m, inl refl, own, ground (arith, judged, e))
  ]
  | no other ↦
      let (k, inside, same, judged) = wait_verdict verdict xid inbox rest r (ground (arith, e)) in
      (k, inr inside, same, judged)
]

ack_only :
    (k m : Message) → ack_verdict k ≡ some (ok m) → (k ≡ m) × (k.msg_type ≡ some MessageType.ack)
unfolding ack_verdict
ack_only k m e = (ground (arith, e), ground (arith, e))

-- The message that the client takes for the acknowledgement of its transaction has arrived, has the
-- transaction's id, and is an ACK.
wait_ack :
    (xid : ℕ) (inbox rest : List Arrival) (m : Message)
    → wait ack_verdict xid inbox ≡ (rest, break_with (ok m))
    → In (message m) inbox × (m.xid ≡ xid) × (m.msg_type ≡ some MessageType.ack)
wait_ack xid inbox rest m e =
    let (k, inside, same, judged) = wait_verdict ack_verdict xid inbox rest (ok m) e in
    let (named, typed) = ack_only k m judged in
    (rw named at inside, rw named at same, rw named at typed)

pub update_lease_keeps :
    (opts : List DhcpOption) (l l' : Lease)
    → update_lease opts l ≡ some l'
    → (l'.assigned_ip ≡ l.assigned_ip) × (l'.server_id ≡ l.server_id)
unfolding update_lease
update_lease_keeps [] l l' e = (cc, cc)
update_lease_keeps (subnet_mask m ∷ opts) l l' e =
    update_lease_keeps opts (record l { subnet_mask = m }) l' e
update_lease_keeps (router [] ∷ opts) l l' e = cc
update_lease_keeps (router (r ∷ _) ∷ opts) l l' e =
    update_lease_keeps opts (record l { router = some r }) l' e
update_lease_keeps (domain_name_server d ∷ opts) l l' e =
    update_lease_keeps opts (record l { dns_servers = d }) l' e
update_lease_keeps (address_lease_time t ∷ opts) l l' e =
    update_lease_keeps opts (record l { lease_time = t }) l' e
update_lease_keeps (renewal t ∷ opts) l l' e =
    update_lease_keeps opts (record l { renewal_time = t }) l' e
update_lease_keeps (rebinding t ∷ opts) l l' e =
    update_lease_keeps opts (record l { rebinding_time = t }) l' e
update_lease_keeps (server_identifier _ ∷ opts) l l' e = update_lease_keeps opts l l' e
update_lease_keeps (unknown ∷ opts) l l' e = update_lease_keeps opts l l' e
