-- ===== src/Dhcp/Attempt/Rounds.antt =====
-- What `attempt` of network-daemon/src/dhcp/utils.rs returns, and when it panics.
use native.Mathlib.Nat.{one-le-pow, mul_assoc, mul-le-mul_left, pow-succ'}
use network_daemon.Prelude.{
  ℕ, zero, suc, ◌*◌, ◌-◌, ◌^◌, ◌<◌, ◌≤◌, ◌≡◌, ◌⊎◌, refl, sym, ap, ◌∙◌, Option-cases, Option, none,
  some, Bool, true, Result, ok, err, ltb, arith, Bool-cases, inl, inr,
}
use network_daemon.Ip.{unwrap_or}
use network_daemon.Dhcp.Attempt.{
  AttemptError, timeout, retries_exhausted, critical_error, Outcome, break_with, continue_on,
  elapsed, finish, retry, attempt_loop, attempt,
}

pub Outcome-cases :
    {E R : Type 0} (o : Outcome E R)
    → ((r : Result E R) × (o ≡ break_with r)) ⊎ ((o ≡ continue_on) ⊎ (o ≡ elapsed))
Outcome-cases (break_with r) = inl (r, refl)
Outcome-cases continue_on = inr (inl refl)
Outcome-cases elapsed = inr (inr refl)

-- A timeout that can be doubled n + 1 times can be doubled once, and its double n times.
doubled : (t n : ℕ) → t * 2 ^ suc n < 2 ^ 64 → (t * 2 < 2 ^ 64) × (t * 2 * 2 ^ n < 2 ^ 64)
doubled t n fits =
    let positive : 1 ≤ 2 ^ n = one-le-pow n 2 (omega arith) in
    let same : t * 2 ^ suc n ≡ t * 2 * 2 ^ n =
      ap (λ k. t * k) (pow-succ' 2 n) ∙ sym (mul_assoc t 2 (2 ^ n)) in
    let grows : t * 2 * 1 ≤ t * 2 * 2 ^ n = mul-le-mul_left (t * 2) positive in
    (omega arith, omega arith)

module _ {S E R : Type 0} (before_retry : S → S × Bool) (f : ℕ → S → Option (S × Outcome E R)) where
  abbrev pub Runs : Type 0
  Runs = (t : ℕ) (s : S) → (s' : S) × (o : Outcome E R) × (f t s ≡ some (s', o))

  retry_total :
      (t : ℕ) (rest : ℕ → S → Option (S × Result (AttemptError E) R)) (s : S)
      → t * 2 < 2 ^ 64
      → ((s' : S) → (p : S × Result (AttemptError E) R) × (rest (t * 2) s' ≡ some p))
      → (p : S × Result (AttemptError E) R) × (retry before_retry f t rest s ≡ some p)
  unfolding retry
  retry_total t rest s fits total = elim (Bool-cases (before_retry s).1) [
    | inl e ↦ let (p, r) = total (before_retry s).0 in (p, ground (arith, e, r))
    | inr e ↦ (((before_retry s).0, err retries_exhausted), ground (arith, e))
  ]

  attempt_loop_total :
      (t n : ℕ) (s : S)
      → Runs
      → t * 2 ^ n < 2 ^ 64
      → (p : S × Result (AttemptError E) R) × (attempt_loop before_retry f t n s ≡ some p)
  unfolding attempt_loop
  attempt_loop_total t zero s runs fits = ((s, err retries_exhausted), refl)
  attempt_loop_total t (suc n) s runs fits =
      let rest = λ (s' : S). attempt_loop_total (t * 2) n s' runs (doubled t n fits).1 in
      let again = λ (s' : S).
        retry_total t (λ t2 s2. attempt_loop before_retry f t2 n s2) s' (doubled t n fits).0 rest in
      let (s', o, e) = runs t s in
      elim (Outcome-cases o) [
        | inl (r, broke) ↦ ((s', finish before_retry f r), ground (arith, e, broke))
        | inr (inl on) ↦ let (p, h) = again s' in (p, ground (arith, e, on, h))
        | inr (inr late) ↦ let (p, h) = again s' in (p, ground (arith, e, late, h))
      ]

  -- If no call of the step panics and the timeout, doubled for each retry, stays below 2 ^ 64 seconds,
  -- then `attempt` has a result.
  pub attempt_total :
      (t n : ℕ) (s : S)
      → Runs
      → t * 2 ^ n < 2 ^ 64
      → (p : S × Result (AttemptError E) R) × (attempt before_retry f (some t) n s ≡ some p)
  unfolding attempt unwrap_or
  attempt_total t n s runs fits = attempt_loop_total t n s runs fits

  -- With no timeout given, `attempt` panics as soon as its first call of the step asks to go on and the
  -- preparation of a retry goes well: the timeout cannot be doubled.
  pub attempt-none_panics :
      (n : ℕ) (s s1 s2 : S)
      → f (2 ^ 64 - 1) s ≡ some (s1, continue_on)
      → before_retry s1 ≡ (s2, true)
      → attempt before_retry f none (suc n) s ≡ none
  unfolding attempt unwrap_or attempt_loop retry
  attempt-none_panics n s s1 s2 e b = rw (e, attempt_loop) (rw b refl)

  -- What a call of the step must have broken with for the result.
  abbrev pub Broke : S → Result (AttemptError E) R → Type 0
  Broke s' (ok r) = (t : ℕ) × (s : S) × (f t s ≡ some (s', break_with (ok r)))
  Broke s' (err (critical_error e)) = (t : ℕ) × (s : S) × (f t s ≡ some (s', break_with (err e)))
  Broke s' (err timeout) = ⊥
  Broke s' (err retries_exhausted) = Unit

  retry-Broke :
      (t : ℕ) (rest : ℕ → S → Option (S × Result (AttemptError E) R)) (s s' : S)
      (r : Result (AttemptError E) R)
      → ((s1 : S) → rest (t * 2) s1 ≡ some (s', r) → Broke s' r)
      → retry before_retry f t rest s ≡ some (s', r)
      → Broke s' r
  unfolding retry
  retry-Broke t rest s s' r later e = elim (Bool-cases (before_retry s).1) [
    | inl fine ↦ elim (Bool-cases (ltb (t * 2) (2 ^ 64))) [
      | inl small ↦ later (before_retry s).0 (ground (arith, fine, small, e))
      | inr big ↦ cc
    ]
    | inr bad ↦ let same : r ≡ err retries_exhausted = ground (arith, bad, e) in rw same tt
  ]

  finish-Broke :
      (t : ℕ) (s s' : S) (q : Result E R)
      → f t s ≡ some (s', break_with q)
      → Broke s' (finish before_retry f q)
  unfolding finish
  finish-Broke t s s' (ok r) e = (t, s, e)
  finish-Broke t s s' (err r) e = (t, s, e)

  attempt_loop-Broke :
      (t n : ℕ) (s s' : S) (r : Result (AttemptError E) R)
      → attempt_loop before_retry f t n s ≡ some (s', r)
      → Broke s' r
  unfolding attempt_loop
  attempt_loop-Broke t zero s s' r e = let same : r ≡ err retries_exhausted = cc in rw same tt
  attempt_loop-Broke t (suc n) s s' r e =
      let later = λ (s1 : S). attempt_loop-Broke (t * 2) n s1 s' r in
      elim (Option-cases (f t s)) [
        | inl none_left ↦ cc
        | inr ((s1, o), step) ↦ elim (Outcome-cases o) [
          | inl (q, broke) ↦
              let ends : s1 ≡ s' = ground (arith, step, broke, e) in
              let result : finish before_retry f q ≡ r = ground (arith, step, broke, e) in
              rw (sym result) (finish-Broke t s s' q (ground (arith, step, broke, ends)))
          | inr (inl on) ↦
              retry-Broke t (λ t2 s2. attempt_loop before_retry f t2 n s2) s1 s' r later
                (ground (arith, step, on, e))
          | inr (inr late) ↦
              retry-Broke t (λ t2 s2. attempt_loop before_retry f t2 n s2) s1 s' r later
                (ground (arith, step, late, e))
        ]
      ]

  -- A result of `attempt` other than that the retries are exhausted is what a call of the step broke
  -- with, and the state is the one that the call left.
  attempt-Broke :
      (limit : Option ℕ) (n : ℕ) (s s' : S) (r : Result (AttemptError E) R)
      → attempt before_retry f limit n s ≡ some (s', r)
      → Broke s' r
  unfolding attempt
  attempt-Broke limit n s s' r e = attempt_loop-Broke (unwrap_or (2 ^ 64 - 1) limit) n s s' r e
