-- ===== src/Dhcp/Attempt/Preserved.antt =====
-- What the steps of `attempt` keep, `attempt` of network-daemon/src/dhcp/utils.rs keeps.
use network_daemon.Prelude.{
  ℕ, zero, suc, ◌*◌, ◌-◌, ◌^◌, ◌≡◌, sym, Option, some, Bool, Result, ltb, arith, Bool-cases,
  Option-cases, inl, inr,
}
use network_daemon.Ip.{unwrap_or}
use network_daemon.Dhcp.Attempt.{AttemptError, Outcome, retry, attempt_loop, attempt}
use network_daemon.Dhcp.Attempt.Rounds.{Outcome-cases}

module _ {S E R : Type 0} (before_retry : S → S × Bool) (f : ℕ → S → Option (S × Outcome E R))
    (P : S → Type 0) (prepared : (s : S) → P s → P (before_retry s).0)
    (stepped : (t : ℕ) (s s' : S) (o : Outcome E R) → f t s ≡ some (s', o) → P s → P s') where
  retry_keeps :
      (t : ℕ) (rest : ℕ → S → Option (S × Result (AttemptError E) R)) (s s' : S)
      (r : Result (AttemptError E) R)
      → ((s1 : S) → rest (t * 2) s1 ≡ some (s', r) → P s1 → P s')
      → retry before_retry f t rest s ≡ some (s', r)
      → P s
      → P s'
  unfolding retry
  retry_keeps t rest s s' r later e h = elim (Bool-cases (before_retry s).1) [
    | inl fine ↦ elim (Bool-cases (ltb (t * 2) (2 ^ 64))) [
      | inl small ↦ later (before_retry s).0 (ground (arith, fine, small, e)) (prepared s h)
      | inr big ↦ cc
    ]
    | inr bad ↦
        let same : (before_retry s).0 ≡ s' = ground (arith, bad, e) in rw (sym same) (prepared s h)
  ]

  attempt_loop_keeps :
      (t n : ℕ) (s s' : S) (r : Result (AttemptError E) R)
      → attempt_loop before_retry f t n s ≡ some (s', r)
      → P s
      → P s'
  unfolding attempt_loop
  attempt_loop_keeps t zero s s' r e h = let same : s ≡ s' = cc in rw (sym same) h
  attempt_loop_keeps t (suc n) s s' r e h =
      let rest = λ (t2 : ℕ) (s2 : S). attempt_loop before_retry f t2 n s2 in
      let later = λ (s1 : S). attempt_loop_keeps (t * 2) n s1 s' r in
      elim (Option-cases (f t s)) [
        | inl none_left ↦ cc
        | inr ((s1, o), step) ↦
            let next : P s1 = stepped t s s1 o step h in
            elim (Outcome-cases o) [
              | inl (q, broke) ↦
                  let ends : s1 ≡ s' = ground (arith, step, broke, e) in rw (sym ends) next
              | inr (inl on) ↦ retry_keeps t rest s1 s' r later (ground (arith, step, on, e)) next
              | inr (inr late) ↦
                  retry_keeps t rest s1 s' r later (ground (arith, step, late, e)) next
            ]
      ]

  pub attempt_keeps :
      (limit : Option ℕ) (n : ℕ) (s s' : S) (r : Result (AttemptError E) R)
      → attempt before_retry f limit n s ≡ some (s', r)
      → P s
      → P s'
  unfolding attempt
  attempt_keeps limit n s s' r e h = attempt_loop_keeps (unwrap_or (2 ^ 64 - 1) limit) n s s' r e h
