-- ===== src/Dhcp/Watchdog.antt =====
-- network-daemon/src/dhcp/lease.rs: the timers of a lease. Times are seconds; `now` is what the clock
-- shows when a sleep is over, and so no earlier than the deadline that was slept for.
pub mod Order
use network_daemon.Prelude.{
  ℕ, zero, suc, ◌+◌, Option, none, some, List, [], ◌∷◌, Bool, true, false, if◌then◌else◌, leb, ltb,
  Result, ok, err,
}
use network_daemon.Dhcp.Client.{DhcpClientError, server_rejected}
use network_daemon.Dhcp.Transactions.{LeaseEvent, renewal, rebinding, lease_expired}

-- The deadlines of the stream of timers.
pub record Stages : Type 0 where
  pub renewal_deadline : ℕ
  pub rebinding_deadline : ℕ
  pub lease_deadline : ℕ

pub record LeaseWatchdog : Type 0 where
  pub renewal_time_val : ℕ
  pub rebinding_time_val : ℕ
  pub lease_time_val : ℕ
  pub timer_handle : Option Stages

-- `stages[idx]`.
unfoldable pub deadline : Stages → ℕ → Option ℕ
deadline stages zero = some stages.renewal_deadline
deadline stages (suc zero) = some stages.rebinding_deadline
deadline stages (suc (suc zero)) = some stages.lease_deadline
deadline stages _ = none

-- The loop over the stages, from the last one: the latest stage whose deadline is over.
unfoldable pub latest_stage : Stages → ℕ → Option (ℕ × ℕ)
latest_stage stages now =
    if leb stages.lease_deadline now
    then some (2, 3)
    else (if leb stages.rebinding_deadline now
        then some (1, 2)
        else (if leb stages.renewal_deadline now then some (0, 1) else none))

-- A step of the stream: the event, and the next state. `wake` is the clock after the sleep until a
-- deadline.
unfoldable pub next_event : Stages → (ℕ → ℕ) → ℕ → Option (ℕ × ℕ)
unfolding deadline latest_stage
next_event stages wake state = elim (deadline stages state) [
  | none ↦ none
  | some d ↦ latest_stage stages (wake d)
]

unfoldable pub set_timers : LeaseWatchdog → ℕ → LeaseWatchdog
set_timers self start = record self {
  timer_handle = some (record {
    renewal_deadline = start + self.renewal_time_val;
    rebinding_deadline = start + self.rebinding_time_val;
    lease_deadline = start + self.lease_time_val;
  });
}

-- The event that is asked for a stage.
unfoldable pub event_of : ℕ → Option LeaseEvent
event_of zero = some renewal
event_of (suc zero) = some rebinding
event_of (suc (suc zero)) = some lease_expired
event_of _ = none

-- What the client replies to an event; it may not be there to reply.
pub data Answer : Type 0 where
  replied : Result DhcpClientError (ℕ × ℕ × ℕ) → Answer
  no_client : Answer

pub data After : Type 0 where
  goes_on killed : After

-- The handler of a stage of the timers, given the client's answers and the clock; `none` is the panic of
-- `unwrap_err` on an error that is not the client's own.
unfoldable pub on_timer :
    LeaseWatchdog → ℕ → (LeaseEvent → Answer) → ℕ → Option (LeaseWatchdog × After)
unfolding event_of set_timers
on_timer self event ask now = elim (event_of event) [
  | none ↦ some (self, goes_on)
  | some e ↦ elim (ask e) [
    | replied (ok (renewal_time, rebinding_time, lease_time)) ↦ some (
      set_timers
          (record self {
            renewal_time_val = renewal_time;
            rebinding_time_val = rebinding_time;
            lease_time_val = lease_time;
          })
          now,
      goes_on,
    )
    | replied (err server_rejected) ↦ some (self, killed)
    | replied (err _) ↦ some (self, goes_on)
    | no_client ↦ none
  ]
]
