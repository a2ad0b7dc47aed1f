-- ===== src/Broadcast.antt =====
-- libnetwork-daemon/src/utils/broadcast.rs: a queue of the senders of unbounded channels. A channel is
-- what its receiver holds: the messages that it was sent, and whether the receiver still exists.
pub mod Delivered
use network_daemon.Prelude.{
  ℕ, zero, suc, ◌+◌, Option, none, some, List, [], ◌∷◌, ◌++◌, Bool, true, false, if◌then◌else◌,
  length,
}

pub record Sender {ℓ} (T : Type ℓ) : Type ℓ where
  pub receiver : ℕ
  pub messages : List T
  pub open_end : Bool

-- `senders`, and the number of receivers that were given out.
pub record Broadcast {ℓ} (T : Type ℓ) : Type ℓ where
  pub senders : List (Sender T)
  pub receivers : ℕ

module _ {ℓ} {T : Type ℓ} where
  abbrev pub new : Broadcast T
  new = record { senders = []; receivers = 0 }

  -- The receiver, by its number.
  unfoldable pub subscribe : Broadcast T → Broadcast T × ℕ
  subscribe self = (
    record {
      senders =
          self.senders
          ++ (record { receiver = self.receivers; messages = []; open_end = true }) ∷ [];
      receivers = self.receivers + 1;
    },
    self.receivers,
  )

  -- `Sender::send` on an unbounded channel fails only if the receiver is dropped.
  unfoldable pub send : T → Sender T → Option (Sender T)
  send message s =
      if s.open_end then some (record s { messages = s.messages ++ message ∷ [] }) else none

  -- The loop of `broadcast`: `num` senders are popped from the front, and those that could send are
  -- pushed at the back.
  unfoldable pub broadcast_loop : ℕ → List (Sender T) → T → ℕ → List (Sender T) × ℕ
  unfolding send
  broadcast_loop zero senders message cnt = (senders, cnt)
  broadcast_loop (suc num) [] message cnt = broadcast_loop num [] message cnt
  broadcast_loop (suc num) (sender ∷ senders) message cnt = elim (send message sender) [
    | none ↦ broadcast_loop num senders message cnt
    | some sender' ↦ broadcast_loop num (senders ++ sender' ∷ []) message (cnt + 1)
  ]

  unfoldable pub broadcast : T → Broadcast T → Broadcast T × ℕ
  unfolding broadcast_loop
  broadcast message self =
      let (senders, cnt) = broadcast_loop (length self.senders) self.senders message 0 in
      (record self { senders = senders }, cnt)
