-- ===== src/Dhcp/Transactions/Reports.antt =====
-- What the handler of lease events of network-daemon/src/dhcp/client.rs does to the client's lease, and
-- what it tells the manager, on each of its ends.
use network_daemon.Prelude.{
  ℕ, ◌≡◌, refl, sym, ap, ◌∙◌, Option, none, some, [], ◌∷◌, ◌++◌, Bool, true, Result, ok, err, arith,
  ◌-◌, ◌^◌, Option-cases, inl, inr,
}
use network_daemon.Dhcp.Lease.{Lease}
use network_daemon.Dhcp.Attempt.{Outcome, continue_on, attempt}
use network_daemon.Dhcp.Attempt.Preserved.{attempt_keeps}
use network_daemon.Dhcp.Attempt.Rounds.{attempt-none_panics}
use network_daemon.Dhcp.Client.{
  Packet, DhcpClientError, transaction_failed, server_rejected, DhcpClient, Run, attempt_result,
}
use network_daemon.Dhcp.Transactions.{
  LeaseEvent, renewal, rebinding, lease_expired, request, renew, rebind, request_step, adopt,
  expire, start_over, conclude, handle,
}
use network_daemon.Dhcp.Transactions.Preserved.{
  Same, Same-refl, request_keeps, extend_keeps, attempt_result_keeps,
}

-- What the handler must have done for its reply: with times, the client has a lease with these times
-- and has told the manager that it replaces the former one; rejected, it has no lease and has told that
-- the former one is gone; failed, nothing has changed. It replies nothing else.
abbrev pub Report : DhcpClient → DhcpClient → Result DhcpClientError (ℕ × ℕ × ℕ) → Type 0
Report old s (ok (t1, t2, t)) =
    (l : Lease) × (s.lease ≡ some l)
    × (l.renewal_time ≡ t1)
    × (l.rebinding_time ≡ t2)
    × (l.lease_time ≡ t)
    × (s.told ≡ old.told ++ (old.lease, some l) ∷ [])
Report old s (err server_rejected) =
    (s.lease ≡ none) × (s.told ≡ old.told ++ (old.lease, none) ∷ [])
Report old s (err transaction_failed) = (s.lease ≡ old.lease) × (s.told ≡ old.told)
Report old s (err _) = ⊥

module _ (random : ℕ → ℕ) (writable : ℕ → Bool)
    (packet_error : Packet → Option DhcpClientError) where
  adopt-Report :
      (old s s' : DhcpClient) (l : Lease) (r : Result DhcpClientError (ℕ × ℕ × ℕ))
      → Same old s
      → adopt random writable packet_error l s ≡ some (s', r)
      → Report old s' r
  unfolding adopt
  adopt-Report old s s' l r h e =
      let result : ok (l.renewal_time, l.rebinding_time, l.lease_time) ≡ r = cc in
      rw (sym result) (l, ground (arith, e), refl, refl, refl, ground (arith, e, h.lease, h.told))

  expire-Report :
      (old s s' : DhcpClient) (r : Result DhcpClientError (ℕ × ℕ × ℕ))
      → Same old s
      → expire random writable packet_error s ≡ some (s', r)
      → Report old s' r
  unfolding expire
  expire-Report old s s' r h e =
      let result : err server_rejected ≡ r = cc in
      rw (sym result) (ground (arith, e), ground (arith, e, h.lease, h.told))

  request_step_keeps :
      (old : DhcpClient) (t : ℕ) (s s' : DhcpClient) (o : Outcome DhcpClientError Lease)
      → request_step random writable packet_error t s ≡ some (s', o)
      → Same old s
      → Same old s'
  unfolding request_step
  request_step_keeps old t s s' o e h =
      elim (Option-cases (request random writable packet_error s)) [
        | inl miss ↦ ground (arith, miss, e)
        | inr ((s1, q), done) ↦
            let same : s1 ≡ s' = ground (arith, done, e) in
            rw (sym same) (request_keeps random writable packet_error old s s1 q done h)
      ]

  -- The requests of the handler after a rejection.
  abbrev tried : DhcpClient → Run Lease
  tried s =
      attempt_result (
        attempt (λ (x : DhcpClient). (x, true)) (request_step random writable packet_error) none 3
          s)

  tried_keeps :
      (old s s' : DhcpClient) (r : Result DhcpClientError Lease)
      → Same old s
      → tried s ≡ some (s', r)
      → Same old s'
  tried_keeps old s s' r h e =
      attempt_result_keeps old _ s' r
        (λ s1 q done.
          attempt_keeps (λ x. (x, true)) (request_step random writable packet_error) (Same old)
            (λ x k. k) (request_step_keeps old) none 3 s s1 q done h)
        e

  start_over-Report :
      (old s s' : DhcpClient) (r : Result DhcpClientError (ℕ × ℕ × ℕ))
      → Same old s
      → start_over random writable packet_error s ≡ some (s', r)
      → Report old s' r
  unfolding start_over
  start_over-Report old s s' r h e = elim (Option-cases (tried s)) [
    | inl miss ↦ ground (arith, miss, e)
    | inr ((s1, ok l), done) ↦
        adopt-Report old s1 s' l r (tried_keeps old s s1 (ok l) h done) (rw (done, start_over) at e)
    | inr ((s1, err x), done) ↦
        expire-Report old s1 s' r (tried_keeps old s s1 (err x) h done) (rw (done, start_over) at e)
  ]

  failed-Report :
      (old s s' : DhcpClient) (r : Result DhcpClientError (ℕ × ℕ × ℕ))
      → Same old s
      → ◌≡◌ {A = Run (ℕ × ℕ × ℕ)} (some (s, err transaction_failed)) (some (s', r))
      → Report old s' r
  failed-Report old s s' r h e =
      let result : err transaction_failed ≡ r = cc in
      let same : s ≡ s' = cc in
      rw (sym result) (ap (λ x. x.lease) (sym same) ∙ h.lease, ap (λ x. x.told) (sym same) ∙ h.told)

  conclude-Report :
      (old : DhcpClient) (o : Run Lease) (s' : DhcpClient) (r : Result DhcpClientError (ℕ × ℕ × ℕ))
      → ((s : DhcpClient) (q : Result DhcpClientError Lease) → o ≡ some (s, q) → Same old s)
      → conclude random writable packet_error o ≡ some (s', r)
      → Report old s' r
  unfolding conclude
  conclude-Report old none s' r h e = cc
  conclude-Report old (some (s, ok l)) s' r h e = adopt-Report old s s' l r (h s (ok l) refl) e
  conclude-Report old (some (s, err server_rejected)) s' r h e =
      start_over-Report old s s' r (h s (err server_rejected) refl) e
  conclude-Report old (some (s, err x)) s' r h e = failed-Report old s s' r (h s (err x) refl) e

  -- Every reply of the handler of lease events is one of three. With times, the client has a lease with
  -- these times and has told the manager that it replaces the former one. Rejected, the client has no
  -- lease and has told the manager that the former one is gone. Failed, the client's lease is as before
  -- and the manager has been told nothing.
  pub handle-Report :
      (event : LeaseEvent) (s s' : DhcpClient) (r : Result DhcpClientError (ℕ × ℕ × ℕ))
      → handle random writable packet_error event s ≡ some (s', r)
      → Report s s' r
  unfolding handle renew rebind
  handle-Report rebinding s s' r e =
      conclude-Report s (rebind random writable packet_error s) s' r
        (λ s1 q done.
          extend_keeps random writable packet_error s (λ lease. none) s s1 q done (Same-refl s))
        e
  handle-Report renewal s s' r e =
      conclude-Report s (renew random writable packet_error s) s' r
        (λ s1 q done.
          extend_keeps random writable packet_error s (λ lease. some lease.server_id) s s1 q done
            (Same-refl s))
        e
  handle-Report lease_expired s s' r e = start_over-Report s s s' r (Same-refl s) e

  -- If a lease has expired and the first request for a new one is rejected by the server, the handler
  -- panics: the retries that follow a rejection never happen.
  handle-request_panics :
      (s s1 : DhcpClient)
      → request random writable packet_error s ≡ some (s1, err server_rejected)
      → handle random writable packet_error lease_expired s ≡ none
  unfolding handle conclude start_over request_step attempt_result
  handle-request_panics s s1 e =
      let step : request_step random writable packet_error (2 ^ 64 - 1) s ≡ some (s1, continue_on) =
        ground (arith, e) in
      let panics =
        attempt-none_panics (λ (x : DhcpClient). (x, true))
          (request_step random writable packet_error) 2 s s1 s1 step refl in
      rw (panics, attempt_result, start_over) refl
