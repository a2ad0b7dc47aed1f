-- ===== src/Broadcast/Delivered.antt =====
-- What a broadcast of libnetwork-daemon/src/utils/broadcast.rs delivers.
use mathlib.Core.List.{append-nil, append_assoc}
use network_daemon.Prelude.{
  ℕ, ◌+◌, ◌≡◌, Option, none, some, List, [], ◌∷◌, ◌++◌, if◌then◌else◌, length, ◌==◌, ◌&&◌, arith,
}
use network_daemon.Broadcast.{Broadcast, Sender, broadcast_loop, broadcast}

module _ {ℓ} {T : Type ℓ} where
  -- The senders whose receivers exist, in their order, each with the message at the end of its channel.
  abbrev pub delivered : T → List (Sender T) → List (Sender T)
  delivered message [] = []
  delivered message (s ∷ senders) =
      if s.open_end
      then (record s { messages = s.messages ++ message ∷ [] }) ∷ delivered message senders
      else delivered message senders

  broadcast_loop_lem :
      (message : T) (senders done : List (Sender T)) (cnt : ℕ)
      → broadcast_loop (length senders) (senders ++ done) message cnt
        ≡ (done ++ delivered message senders, cnt + length (delivered message senders))
  unfolding broadcast_loop
  broadcast_loop_lem message [] done cnt = ground (arith, append-nil done)
  broadcast_loop_lem message (s ∷ senders) done cnt =
      let sent = record s { messages = s.messages ++ message ∷ [] } in
      ground (
        arith,
        append_assoc senders done (sent ∷ []),
        append_assoc done (sent ∷ []) (delivered message senders),
        broadcast_loop_lem message senders (done ++ sent ∷ []) (cnt + 1),
        broadcast_loop_lem message senders done cnt,
      )

  -- A broadcast drops the senders whose receivers are gone, keeps the others in their order, adds the
  -- message once at the end of each of their channels, and returns their number.
  pub broadcast_lem :
      (message : T) (self : Broadcast T)
      → broadcast message self ≡ (
        record self { senders = delivered message self.senders },
        length (delivered message self.senders),
      )
  unfolding broadcast
  broadcast_lem message self =
      ground (arith, append-nil self.senders, broadcast_loop_lem message self.senders [] 0)

  -- The messages that a receiver was sent, if it exists.
  abbrev pub received : ℕ → List (Sender T) → Option (List T)
  received r [] = none
  received r (s ∷ senders) =
      let rest = received r senders in
      if s.receiver == r && s.open_end then some s.messages else rest

  received-delivered :
      (r : ℕ) (message : T) (senders : List (Sender T)) (l : List T)
      → received r senders ≡ some l
      → received r (delivered message senders) ≡ some (l ++ message ∷ [])
  received-delivered r message [] l h = absurd cc
  received-delivered r message (s ∷ senders) l h =
      ground (arith, received-delivered r message senders l)

  pub received-broadcast :
      (r : ℕ) (message : T) (self : Broadcast T) (l : List T)
      → received r self.senders ≡ some l
      → received r (broadcast message self).0.senders ≡ some (l ++ message ∷ [])
  received-broadcast r message self l h =
      rw broadcast_lem (received-delivered r message self.senders l h)
