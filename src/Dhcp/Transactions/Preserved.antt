-- ===== src/Dhcp/Transactions/Preserved.antt =====
-- The transactions of network-daemon/src/dhcp/client.rs leave the client's lease and its reports to the
-- manager alone: only the handlers alter them.
use network_daemon.Prelude.{
  ℕ, ◌≡◌, refl, sym, Option, none, some, Bool, Result, ok, err, arith, Option-cases, Bool-cases,
  inl, inr,
}
use network_daemon.Dhcp.Lease.{Lease}
use network_daemon.Dhcp.Attempt.{AttemptError, Outcome, critical_error, retries_exhausted, timeout}
use network_daemon.Dhcp.Attempt.Preserved.{attempt_keeps}
use network_daemon.Dhcp.Client.{
  Message, Packet, DhcpClientError, DhcpClient, Run, try_then, receive, attempt_result,
  server_id_of, offer_verdict, ack_verdict,
}
use network_daemon.Dhcp.Transactions.{
  start_new_transaction, write, send, exchange, lease_from, discover_packet, request_packet,
  after_offer, request, extension_packet, after_ack, extend,
}

-- The client still has the lease of `old`, and has told the manager the same.
pub record Same (old s : DhcpClient) : Type 0 where
  pub lease : s.lease ≡ old.lease
  pub told : s.told ≡ old.told

pub Same-refl : (s : DhcpClient) → Same s s
Same-refl s = record { lease = refl; told = refl }

try_then_keeps :
    {A B : Type 0} (old : DhcpClient) (first : Run A) (k : A → DhcpClient → Run B) (s' : DhcpClient)
    (r : Result DhcpClientError B)
    → ((s : DhcpClient) (q : Result DhcpClientError A) → first ≡ some (s, q) → Same old s)
    → ((a : A) (s : DhcpClient) → Same old s → k a s ≡ some (s', r) → Same old s')
    → try_then first k ≡ some (s', r)
    → Same old s'
unfolding try_then
try_then_keeps old none k s' r one two e = cc
try_then_keeps old (some (s, ok a)) k s' r one two e = two a s (one s (ok a) refl) e
try_then_keeps old (some (s, err x)) k s' r one two e =
    let same : s ≡ s' = cc in rw (sym same) (one s (err x) refl)

pub attempt_result_keeps :
    {A : Type 0} (old : DhcpClient)
    (o : Option (DhcpClient × Result (AttemptError DhcpClientError) A)) (s' : DhcpClient)
    (r : Result DhcpClientError A)
    → ((s : DhcpClient) (q : Result (AttemptError DhcpClientError) A)
        → o ≡ some (s, q)
        → Same old s)
    → attempt_result o ≡ some (s', r)
    → Same old s'
unfolding attempt_result
attempt_result_keeps old none s' r one e = cc
attempt_result_keeps old (some (s, ok a)) s' r one e =
    let same : s ≡ s' = cc in rw (sym same) (one s (ok a) refl)
attempt_result_keeps old (some (s, err (critical_error x))) s' r one e =
    let same : s ≡ s' = cc in rw (sym same) (one s (err (critical_error x)) refl)
attempt_result_keeps old (some (s, err timeout)) s' r one e =
    let same : s ≡ s' = cc in rw (sym same) (one s (err timeout) refl)
attempt_result_keeps old (some (s, err retries_exhausted)) s' r one e =
    let same : s ≡ s' = cc in rw (sym same) (one s (err retries_exhausted) refl)

module _ (random : ℕ → ℕ) (writable : ℕ → Bool) (packet_error : Packet → Option DhcpClientError)
    (old : DhcpClient) where
  write_keeps :
      (p : Packet) (s : DhcpClient)
      → Same old s
      → Same old (write random writable packet_error p s).0
  unfolding write
  write_keeps p s h = elim (Bool-cases (writable s.writes)) [
    | inl e ↦ rw (e, write) (record { lease = h.lease; told = h.told })
    | inr e ↦ rw (e, write) (record { lease = h.lease; told = h.told })
  ]

  send_keeps :
      (p : Packet) (s s' : DhcpClient) (r : Result DhcpClientError Unit)
      → send random writable packet_error p s ≡ some (s', r)
      → Same old s
      → Same old s'
  unfolding send
  send_keeps p s s' r e h = elim (Option-cases (packet_error p)) [
    | inr (x, bad) ↦ let same : s ≡ s' = ground (arith, bad, e) in rw (sym same) h
    | inl fine ↦
        let same : (write random writable packet_error p s).0 ≡ s' = ground (arith, fine, e) in
        rw (sym same) (write_keeps p s h)
  ]

  receive_keeps :
      (verdict : Message → Option (Result DhcpClientError Message)) (t : ℕ) (s s' : DhcpClient)
      (o : Outcome DhcpClientError Message)
      → receive verdict t s ≡ some (s', o)
      → Same old s
      → Same old s'
  unfolding receive
  receive_keeps verdict t s s' o e h = record {
    lease = ground (arith, e, h.lease);
    told = ground (arith, e, h.told);
  }

  exchange_keeps :
      (verdict : Message → Option (Result DhcpClientError Message)) (p : Packet) (s s' : DhcpClient)
      (r : Result DhcpClientError Message)
      → exchange random writable packet_error verdict p s ≡ some (s', r)
      → Same old s
      → Same old s'
  unfolding exchange
  exchange_keeps verdict p s s' r e h =
      try_then_keeps old (send random writable packet_error p s) _ s' r
        (λ s1 q sent. send_keeps p s s1 q sent h)
        (λ _ s1 h1 rest.
          attempt_result_keeps old _ s' r
            (λ s2 q tried.
              attempt_keeps (write random writable packet_error p) (receive verdict) (Same old)
                (write_keeps p) (receive_keeps verdict) (some 5) 3 s1 s2 q tried h1)
            rest)
        e

  lease_from_keeps :
      (id : ℕ) (m : Message) (s s' : DhcpClient) (r : Result DhcpClientError Lease)
      → lease_from random writable packet_error id m s ≡ some (s', r)
      → Same old s
      → Same old s'
  unfolding lease_from
  lease_from_keeps id m s s' r e h = let same : s ≡ s' = ground (arith, e) in rw (sym same) h

  start_keeps :
      (s : DhcpClient)
      → Same old s
      → Same old (start_new_transaction random writable packet_error s)
  unfolding start_new_transaction
  start_keeps s h = record { lease = h.lease; told = h.told }

  after_offer_keeps :
      (offer : Message) (s s' : DhcpClient) (r : Result DhcpClientError Lease)
      → after_offer random writable packet_error offer s ≡ some (s', r)
      → Same old s
      → Same old s'
  unfolding after_offer
  after_offer_keeps offer s s' r e h = elim (Option-cases (server_id_of offer.opts)) [
    | inl miss ↦ let same : s ≡ s' = ground (arith, miss, e) in rw (sym same) h
    | inr (id, hit) ↦
        let packet = request_packet random writable packet_error offer id s in
        try_then_keeps old (exchange random writable packet_error ack_verdict packet s)
          (lease_from random writable packet_error id) s' r
          (λ s2 q step. exchange_keeps ack_verdict packet s s2 q step h)
          (λ m s2 h2 last. lease_from_keeps id m s2 s' r last h2) (rw (hit, after_offer) at e)
  ]

  pub request_keeps :
      (s s' : DhcpClient) (r : Result DhcpClientError Lease)
      → request random writable packet_error s ≡ some (s', r)
      → Same old s
      → Same old s'
  unfolding request
  request_keeps s s' r e h =
      let s0 = start_new_transaction random writable packet_error s in
      let packet = discover_packet random writable packet_error s0 in
      try_then_keeps old (exchange random writable packet_error offer_verdict packet s0)
        (after_offer random writable packet_error) s' r
        (λ s1 q step. exchange_keeps offer_verdict packet s0 s1 q step (start_keeps s h))
        (λ offer s1 h1 rest. after_offer_keeps offer s1 s' r rest h1) e

  after_ack_keeps :
      (l : Lease) (m : Message) (s s' : DhcpClient) (r : Result DhcpClientError Lease)
      → after_ack random writable packet_error l m s ≡ some (s', r)
      → Same old s
      → Same old s'
  unfolding after_ack
  after_ack_keeps l m s s' r e h = let same : s ≡ s' = ground (arith, e) in rw (sym same) h

  pub extend_keeps :
      (dest : Lease → Option ℕ) (s s' : DhcpClient) (r : Result DhcpClientError Lease)
      → extend random writable packet_error dest s ≡ some (s', r)
      → Same old s
      → Same old s'
  unfolding extend
  extend_keeps dest s s' r e h = elim (Option-cases s.lease) [
    | inl miss ↦ ground (arith, miss, e)
    | inr (l, hit) ↦
        let s0 = start_new_transaction random writable packet_error s in
        let packet = extension_packet random writable packet_error l (dest l) s0 in
        try_then_keeps old (exchange random writable packet_error ack_verdict packet s0)
          (after_ack random writable packet_error l) s' r
          (λ s1 q step. exchange_keeps ack_verdict packet s0 s1 q step (start_keeps s h))
          (λ m s1 h1 rest. after_ack_keeps l m s1 s' r rest h1) (rw (hit, extend) at e)
  ]
