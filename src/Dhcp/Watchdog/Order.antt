-- ===== src/Dhcp/Watchdog/Order.antt =====
-- Which events the timers of network-daemon/src/dhcp/lease.rs give.
use network_daemon.Prelude.{
  ℕ, zero, suc, ◌≤◌, ◌<◌, ◌≡◌, refl, some, true, false, leb, arith, ◌⊎◌, Bool-cases, inl, inr,
}
use network_daemon.Dhcp.Watchdog.{Stages, deadline, latest_stage, next_event}

-- The event of the timers when the clock shows `now`: the latest stage that is over.
pub record IsLatest (stages : Stages) (now idx : ℕ) : Type 0 where
  pub bound : idx < 3
  pub due : ℕ
  pub over : deadline stages idx ≡ some due
  pub passed : due ≤ now
  pub none_later : (j d : ℕ) → idx < j → deadline stages j ≡ some d → now < d

deadline-cases :
    (stages : Stages) (state d : ℕ)
    → deadline stages state ≡ some d
    → ((state ≡ 0) × (stages.renewal_deadline ≡ d))
      ⊎ (((state ≡ 1) × (stages.rebinding_deadline ≡ d))
          ⊎ ((state ≡ 2) × (stages.lease_deadline ≡ d)))
unfolding deadline
deadline-cases stages zero d e = inl (refl, cc)
deadline-cases stages (suc zero) d e = inr (inl (refl, cc))
deadline-cases stages (suc (suc zero)) d e = inr (inr (refl, cc))
deadline-cases stages (suc (suc (suc n))) d e = cc

le_of_leb : (a b : ℕ) → leb a b ≡ true → a ≤ b
le_of_leb a b e = ground arith

lt_of_leb : (a b : ℕ) → leb a b ≡ false → b < a
lt_of_leb a b e = ground arith

latest_stage-IsLatest :
    (stages : Stages) (now state d : ℕ)
    → deadline stages state ≡ some d
    → d ≤ now
    → (idx : ℕ) × (latest_stage stages now ≡ some (idx, suc idx))
      × (state ≤ idx)
      × IsLatest stages now idx
unfolding deadline latest_stage
latest_stage-IsLatest stages now state d at_state slept =
    let here = deadline-cases stages state d at_state in
    elim (Bool-cases (leb stages.lease_deadline now)) [
      | inl third ↦ (
        2,
        ground (arith, third),
        ground (arith, here),
        record {
          bound = omega arith;
          due = stages.lease_deadline;
          over = refl;
          passed = le_of_leb stages.lease_deadline now third;
          none_later = λ j k after e. ground (arith, deadline-cases stages j k e);
        },
      )
      | inr early ↦
          let early_lt = lt_of_leb stages.lease_deadline now early in
          elim (Bool-cases (leb stages.rebinding_deadline now)) [
            | inl second ↦ (
              1,
              ground (arith, early, second),
              ground (arith, here, early_lt),
              record {
                bound = omega arith;
                due = stages.rebinding_deadline;
                over = refl;
                passed = le_of_leb stages.rebinding_deadline now second;
                none_later = λ j k after e. ground (arith, deadline-cases stages j k e, early_lt);
              },
            )
            | inr earlier ↦
                let earlier_lt = lt_of_leb stages.rebinding_deadline now earlier in
                let due : stages.renewal_deadline ≤ now =
                  ground (arith, here, early_lt, earlier_lt) in
                (
                  0,
                  ground (arith, early, earlier, due),
                  ground (arith, here, early_lt, earlier_lt),
                  record {
                    bound = omega arith;
                    due = stages.renewal_deadline;
                    over = refl;
                    passed = due;
                    none_later = λ j k after e.
                        ground (arith, deadline-cases stages j k e, early_lt, earlier_lt);
                  },
                )
          ]
    ]

-- Each step of the timers, from a state that has a deadline and with a clock that has reached it when
-- the sleep ends, gives the latest stage that is over then. It is at or after the state, and the next
-- state is after it: no stage comes twice, and none after a later one.
pub next_event-IsLatest :
    (stages : Stages) (wake : ℕ → ℕ) (state d : ℕ)
    → deadline stages state ≡ some d
    → d ≤ wake d
    → (idx : ℕ) × (next_event stages wake state ≡ some (idx, suc idx))
      × (state ≤ idx)
      × IsLatest stages (wake d) idx
unfolding next_event
next_event-IsLatest stages wake state d e slept =
    let (idx, found, later, latest) = latest_stage-IsLatest stages (wake d) state d e slept in
    (idx, rw (e, next_event) found, later, latest)
