-- ===== src/Dhcp/Transactions.antt =====
-- network-daemon/src/dhcp/client.rs: the client's transactions and its handlers. What they use of other
-- code is a parameter: the random transaction ids, which writes to the socket go well, and which
-- packets cannot be encoded.
pub mod Preserved
pub mod Reports
pub mod Extension
use network_daemon.Prelude.{
  ℕ, zero, suc, Option, none, some, List, [], ◌∷◌, ◌++◌, Bool, true, false, if◌then◌else◌, Result,
  ok, err, ok_or,
}
use network_daemon.Dhcp.Lease.{Lease, LeaseBuilder, new, set_assigned_ip, set_server_id, build}
use network_daemon.Dhcp.Attempt.{AttemptError, Outcome, break_with, continue_on, attempt}
use network_daemon.Dhcp.Client.{
  MessageType, DhcpOption, Message, Packet, DhcpClientError, transaction_failed, server_rejected,
  invalid_response, socket_error, DhcpClient, Run, try_then, offer_verdict, ack_verdict, receive,
  server_id_of, lease_options, update_lease, attempt_result,
}

pub data LeaseEvent : Type 0 where
  renewal rebinding lease_expired : LeaseEvent

module _ (random : ℕ → ℕ) (writable : ℕ → Bool)
    (packet_error : Packet → Option DhcpClientError) where
  unfoldable pub start_new_transaction : DhcpClient → DhcpClient
  start_new_transaction self = record self {
    xid = random self.transactions;
    transactions = suc self.transactions;
  }

  abbrev pub construct_base : DhcpClient → MessageType → Packet
  construct_base self t = record {
    xid = self.xid;
    msg_type = t;
    ciaddr = none;
    requested_ip = none;
    server_id = none;
    params = false;
    src = none;
    dest = none;
  }

  -- `self.socket.write(&packet)`, and whether it went well.
  unfoldable pub write : Packet → DhcpClient → DhcpClient × Bool
  write packet self =
      let fine = writable self.writes in
      let tried = record self { writes = suc self.writes } in
      if fine then (record tried { sent = self.sent ++ packet ∷ [] }, true) else (tried, false)

  -- A packet is built and written, or the function returns the error.
  unfoldable pub send : Packet → DhcpClient → Run Unit
  unfolding write
  send packet self = elim (packet_error packet) [
    | some e ↦ some (self, err e)
    | none ↦
        let (self', fine) = write packet self in
        if fine then some (self', ok tt) else some (self', err socket_error)
  ]

  -- A packet is sent, and an answer is awaited for 5 seconds, 3 times at most.
  unfoldable pub exchange :
      (Message → Option (Result DhcpClientError Message)) → Packet → DhcpClient → Run Message
  unfolding send try_then attempt_result
  exchange verdict packet self =
      try_then (send packet self)
        (λ _ self'. attempt_result (attempt (write packet) (receive verdict) (some 5) 3 self'))

  -- `request`, after the ACK.
  unfoldable pub lease_from : ℕ → Message → DhcpClient → Run Lease
  lease_from server_id ack self =
      elim (lease_options ack.opts (set_server_id (set_assigned_ip new ack.yiaddr) server_id)) [
        | none ↦ none
        | some builder ↦ elim (build builder) [
          | ok lease ↦ some (self, ok lease)
          | err _ ↦ some (self, err invalid_response)
        ]
      ]

  -- The packets of `request`.
  abbrev pub discover_packet : DhcpClient → Packet
  discover_packet self = record (construct_base self MessageType.discover) { params = true }

  abbrev pub request_packet : Message → ℕ → DhcpClient → Packet
  request_packet offer server_id self = record (construct_base self MessageType.request) {
    requested_ip = some offer.yiaddr;
    server_id = some server_id;
    params = true;
  }

  -- `request`, after the OFFER.
  unfoldable pub after_offer : Message → DhcpClient → Run Lease
  unfolding exchange try_then lease_from
  after_offer offer self = elim (server_id_of offer.opts) [
    | none ↦ some (self, err invalid_response)
    | some server_id ↦
        try_then (exchange ack_verdict (request_packet offer server_id self) self)
          (lease_from server_id)
  ]

  unfoldable pub request : DhcpClient → Run Lease
  unfolding start_new_transaction exchange try_then after_offer
  request self =
      let self0 = start_new_transaction self in
      try_then (exchange offer_verdict (discover_packet self0) self0) after_offer

  -- The packet of `renew` and `rebind`.
  abbrev pub extension_packet : Lease → Option ℕ → DhcpClient → Packet
  extension_packet lease dest self = record (construct_base self MessageType.request) {
    ciaddr = some lease.assigned_ip;
    params = true;
    src = some lease.assigned_ip;
    dest = dest;
  }

  -- `renew` and `rebind`, after the ACK.
  unfoldable pub after_ack : Lease → Message → DhcpClient → Run Lease
  after_ack lease ack self = elim (update_lease ack.opts lease) [
    | none ↦ none
    | some new_lease ↦ some (self, ok new_lease)
  ]

  -- `renew` and `rebind`: they differ in the address that they send to. Without a lease they panic.
  unfoldable pub extend : (Lease → Option ℕ) → DhcpClient → Run Lease
  unfolding start_new_transaction exchange try_then after_ack
  extend dest self = elim self.lease [
    | none ↦ none
    | some lease ↦
        let self0 = start_new_transaction self in
        try_then (exchange ack_verdict (extension_packet lease (dest lease) self0) self0)
          (after_ack lease)
  ]

  unfoldable pub renew : DhcpClient → Run Lease
  unfolding extend
  renew self = extend (λ lease. some lease.server_id) self

  unfoldable pub rebind : DhcpClient → Run Lease
  unfolding extend
  rebind self = extend (λ lease. none) self

  unfoldable pub release : DhcpClient → Run Unit
  unfolding start_new_transaction send
  release self = elim self.lease [
    | none ↦ some (self, ok tt)
    | some lease ↦
        let self0 = start_new_transaction self in
        send
          (record (construct_base self0 MessageType.release) {
            ciaddr = some lease.assigned_ip;
            server_id = some lease.server_id;
            src = some lease.assigned_ip;
            dest = some lease.server_id;
          })
          self0
  ]

  unfoldable pub decline : Lease → DhcpClient → Run Unit
  unfolding start_new_transaction send
  decline lease self =
      let self0 = start_new_transaction self in
      send
        (record (construct_base self0 MessageType.decline) {
          requested_ip = some lease.assigned_ip;
          server_id = some lease.server_id;
          src = some 0;
        })
        self0

  -- `self.manager.tell`.
  abbrev pub tell : Option Lease → Option Lease → DhcpClient → DhcpClient
  tell old_lease new_lease self = record self { told = self.told ++ (old_lease, new_lease) ∷ [] }

  unfoldable pub on_start : DhcpClient → Run Unit
  unfolding request try_then
  on_start args =
      try_then (request args)
        (λ lease args'. some (tell none (some lease) (record args' { lease = some lease }), ok tt))

  -- `on_link_died`: the lease is released when the watchdog stopped normally. The client stops in any
  -- case, with the reason that it is given.
  unfoldable pub on_link_died : Bool → DhcpClient → Run Unit
  unfolding release
  on_link_died normal self = if normal then release self else some (self, ok tt)

  -- The step of the `attempt` in the handler: a rejected request asks to go on.
  unfoldable pub request_step : ℕ → DhcpClient → Option (DhcpClient × Outcome DhcpClientError Lease)
  unfolding request
  request_step limit self = elim (request self) [
    | none ↦ none
    | some (self', ok lease) ↦ some (self', break_with (ok lease))
    | some (self', err server_rejected) ↦ some (self', continue_on)
    | some (self', err e) ↦ some (self', break_with (err e))
  ]

  -- The end of the handler with a lease, and with none.
  unfoldable pub adopt : Lease → DhcpClient → Run (ℕ × ℕ × ℕ)
  adopt lease self = some (
    tell self.lease (some lease) (record self { lease = some lease }),
    ok (lease.renewal_time, lease.rebinding_time, lease.lease_time),
  )

  unfoldable pub expire : DhcpClient → Run (ℕ × ℕ × ℕ)
  expire self = some (tell self.lease none (record self { lease = none }), err server_rejected)

  -- The handler after a rejection: a new lease is requested.
  unfoldable pub start_over : DhcpClient → Run (ℕ × ℕ × ℕ)
  unfolding request_step attempt_result adopt expire
  start_over self = elim (attempt_result (attempt (λ s. (s, true)) request_step none 3 self)) [
    | none ↦ none
    | some (self', ok lease) ↦ adopt lease self'
    | some (self', err _) ↦ expire self'
  ]

  -- The handler, given the result of the event's transaction.
  unfoldable pub conclude : Run Lease → Run (ℕ × ℕ × ℕ)
  unfolding adopt start_over
  conclude none = none
  conclude (some (self, ok lease)) = adopt lease self
  conclude (some (self, err server_rejected)) = start_over self
  conclude (some (self, err _)) = some (self, err transaction_failed)

  -- The handler of `LeaseEvent`s.
  unfoldable pub handle : LeaseEvent → DhcpClient → Run (ℕ × ℕ × ℕ)
  unfolding renew rebind conclude
  handle rebinding self = conclude (rebind self)
  handle renewal self = conclude (renew self)
  handle lease_expired self = conclude (some (self, err server_rejected))
