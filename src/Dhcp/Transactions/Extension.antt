-- ===== src/Dhcp/Transactions/Extension.antt =====
-- What `renew` and `rebind` of network-daemon/src/dhcp/client.rs return.
use network_daemon.Prelude.{
  ℕ, ◌≡◌, Option, none, some, Bool, ok, err, arith, Option-cases, inl, inr,
}
use network_daemon.Dhcp.Lease.{Lease}
use network_daemon.Dhcp.Client.{
  Message, Packet, DhcpClientError, DhcpClient, Run, try_then, ack_verdict, update_lease,
}
use network_daemon.Dhcp.Client.Receive.{update_lease_keeps}
use network_daemon.Dhcp.Transactions.{
  start_new_transaction, exchange, extension_packet, after_ack, extend, renew, rebind,
}

-- A lease that extends the lease of the client: the same address of the same server.
abbrev pub Extends : DhcpClient → Lease → Type 0
Extends s l' =
    (l : Lease) × (s.lease ≡ some l)
    × (l'.assigned_ip ≡ l.assigned_ip)
    × (l'.server_id ≡ l.server_id)

try_then_ok :
    {A B : Type 0} (first : Run A) (k : A → DhcpClient → Run B) (s' : DhcpClient) (b : B)
    → try_then first k ≡ some (s', ok b)
    → (a : A) × (s : DhcpClient) × (k a s ≡ some (s', ok b))
unfolding try_then
try_then_ok none k s' b e = cc
try_then_ok (some (s, ok a)) k s' b e = (a, s, e)
try_then_ok (some (s, err x)) k s' b e = cc

module _ (random : ℕ → ℕ) (writable : ℕ → Bool)
    (packet_error : Packet → Option DhcpClientError) where
  after_ack_updates :
      (l l' : Lease) (m : Message) (s s' : DhcpClient)
      → after_ack random writable packet_error l m s ≡ some (s', ok l')
      → update_lease m.opts l ≡ some l'
  unfolding after_ack
  after_ack_updates l l' m s s' e = ground (arith, e)

  extend-Extends :
      (dest : Lease → Option ℕ) (s s' : DhcpClient) (l' : Lease)
      → extend random writable packet_error dest s ≡ some (s', ok l')
      → Extends s l'
  unfolding extend
  extend-Extends dest s s' l' e = elim (Option-cases s.lease) [
    | inl miss ↦ ground (arith, miss, e)
    | inr (l, hit) ↦
        let s0 = start_new_transaction random writable packet_error s in
        let packet = extension_packet random writable packet_error l (dest l) s0 in
        let (m, s1, rest) =
          try_then_ok (exchange random writable packet_error ack_verdict packet s0)
            (after_ack random writable packet_error l) s' l' (rw (hit, extend) at e) in
        let (ip, server) = update_lease_keeps m.opts l l' (after_ack_updates l l' m s1 s' rest) in
        (l, hit, ip, server)
  ]

  -- A lease that `renew` returns is the client's own, extended: it keeps the address and the server.
  pub renew-Extends :
      (s s' : DhcpClient) (l' : Lease)
      → renew random writable packet_error s ≡ some (s', ok l')
      → Extends s l'
  unfolding renew
  renew-Extends s s' l' e = extend-Extends (λ lease. some lease.server_id) s s' l' e

  -- The same for `rebind`.
  pub rebind-Extends :
      (s s' : DhcpClient) (l' : Lease)
      → rebind random writable packet_error s ≡ some (s', ok l')
      → Extends s l'
  unfolding rebind
  rebind-Extends s s' l' e = extend-Extends (λ lease. none) s s' l' e
