-- ===== src/Dhcp/Attempt.antt =====
-- `attempt` of network-daemon/src/dhcp/utils.rs: a step is tried again, each time with twice the
-- timeout. A `Duration` is its whole seconds in a `u64`; a product that does not fit is a panic.
pub mod Rounds
pub mod Preserved
use network_daemon.Prelude.{
  ℕ, zero, suc, ◌*◌, ◌-◌, ◌^◌, Option, none, some, List, [], ◌∷◌, Bool, true, false, if◌then◌else◌,
  Result, ok, err, ltb,
}
use network_daemon.Ip.{unwrap_or}

pub data AttemptError {ℓ} (E : Type ℓ) : Type ℓ where
  timeout : AttemptError E
  retries_exhausted : AttemptError E
  critical_error : E → AttemptError E

-- What `tokio::time::timeout` gives of a call of `f`: its `ControlFlow`, or that the time ran out. A
-- call that panics has none.
pub data Outcome {ℓ} (E R : Type ℓ) : Type ℓ where
  break_with : Result E R → Outcome E R
  continue_on : Outcome E R
  elapsed : Outcome E R

module _ {S E R : Type 0} (before_retry : S → S × Bool) (f : ℕ → S → Option (S × Outcome E R)) where
  unfoldable pub finish : Result E R → Result (AttemptError E) R
  finish (ok r) = ok r
  finish (err e) = err (critical_error e)

  -- The end of a round that did not break, and the rest of the loop with twice the timeout.
  unfoldable pub retry :
      ℕ
      → (ℕ → S → Option (S × Result (AttemptError E) R))
      → S
      → Option (S × Result (AttemptError E) R)
  retry limit rest s =
      let (s', fine) = before_retry s in
      if fine
      then (if ltb (limit * 2) (2 ^ 64) then rest (limit * 2) s' else none)
      else some (s', err retries_exhausted)

  unfoldable pub attempt_loop : ℕ → ℕ → S → Option (S × Result (AttemptError E) R)
  unfolding finish retry
  attempt_loop limit zero s = some (s, err retries_exhausted)
  attempt_loop limit (suc retry_count) s = elim (f limit s) [
    | none ↦ none
    | some (s1, break_with r) ↦ some (s1, finish r)
    | some (s1, continue_on) ↦ retry limit (λ t s2. attempt_loop t retry_count s2) s1
    | some (s1, elapsed) ↦ retry limit (λ t s2. attempt_loop t retry_count s2) s1
  ]

  unfoldable pub attempt : Option ℕ → ℕ → S → Option (S × Result (AttemptError E) R)
  unfolding unwrap_or attempt_loop
  attempt limit retry_count s = attempt_loop (unwrap_or (2 ^ 64 - 1) limit) retry_count s
