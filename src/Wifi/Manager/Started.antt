-- ===== src/Wifi/Manager/Started.antt =====
-- How often network-daemon/src/wifi/manager.rs starts a backend.
use mathlib.Core.Option
use network_daemon.Prelude.{
  ℕ, zero, suc, ◌≡◌, refl, ap, ◌∙◌, Option, none, some, true, Result, ok, err, Result-cases, inl,
  inr, arith,
}
use network_daemon.Wifi.Manager.{
  Backends, Self, ControlFlow, continue_on, start_backend, start_loop, started, restarted, on_start,
  on_link_died,
}

module _ {State : Type 0} (api : Backends State) (Event : Type 0) where
  -- The first backend that could be made, in at most one call more than the number says; if there is
  -- none, the last error.
  abbrev pub make_one : ℕ → State → Result api.WifiError api.Backend × State
  make_one zero s = api.new s
  make_one (suc more) s = elim (api.new s).0 [
    | ok b ↦ api.new s
    | err _ ↦ make_one more (api.new s).1
  ]

  -- A manager with a backend that was made, or with what three failures leave.
  abbrev pub supervised :
      Result api.WifiError api.Backend × State
      → Self api Event
      → Result api.WifiError ControlFlow × Self api Event × State
  supervised (err e, s) self = (err e, record self { retry_cnt = 3 }, s)
  supervised (ok b, s) self =
      let (backend_ref, s') = api.spawn_with_mailbox b s in
      (
        ok continue_on,
        record self { backend = some backend_ref; retry_cnt = 0 },
        api.link backend_ref s',
      )

  abbrev pub manager_of :
      Result api.WifiError ControlFlow × Self api Event × State
      → Result api.WifiError (Self api Event) × State
  manager_of (err e, _, s) = (err e, s)
  manager_of (ok _, self, s) = (ok self, s)

  -- What the loop leaves, with the counter reset.
  loop_lem :
      (self : Self api Event) (s : State)
      → self.retry_cnt ≡ 0
      → elim (start_loop api Event 4 self s) [ none ↦ none | some r ↦ some (restarted api Event r) ]
        ≡ some (supervised (make_one 2 s) self)
  unfolding start_loop start_backend restarted
  loop_lem self s zero_cnt =
      let s1 = (api.new s).1 in
      let s2 = (api.new s1).1 in
      elim (Result-cases (api.new s).0) [
        | inl (b, good) ↦ ground (arith, good)
        | inr (e, bad) ↦ elim (Result-cases (api.new s1).0) [
          | inl (b, good) ↦ ground (arith, bad, good, zero_cnt)
          | inr (e1, bad1) ↦ elim (Result-cases (api.new s2).0) [
            | inl (b, good) ↦ ground (arith, bad, bad1, good, zero_cnt)
            | inr (e2, bad2) ↦ ground (arith, bad, bad1, bad2, zero_cnt)
          ]
        ]
      ]

  started-restarted :
      (r : Option (Result api.WifiError (Unit {0}) × Self api Event × State))
      → elim r [ none ↦ none | some x ↦ some (started api Event x) ]
        ≡ Option.map manager_of (elim r [ none ↦ none | some x ↦ some (restarted api Event x) ])
  unfolding started restarted
  started-restarted none = refl
  started-restarted (some (ok _, self, s)) = refl
  started-restarted (some (err e, self, s)) = refl

  -- A manager that counts no failure makes at most three backends: the start of the manager, and its
  -- restart of a backend that died, end with the first one that could be made, spawned and linked, and
  -- again count no failure, or with the error of the third.
  pub on_start-on_link_died :
      (self : Self api Event) (s : State)
      → self.retry_cnt ≡ 0
      → (on_start api Event self s
          ≡ some (manager_of (supervised (make_one 2 (api.register s)) self)))
        × (on_link_died api Event true self s
            ≡ some (supervised (make_one 2 s) (record self { backend = none })))
  unfolding on_start on_link_died
  on_start-on_link_died self s zero_cnt =
      let first = loop_lem self (api.register s) zero_cnt in
      let again = loop_lem (record self { backend = none }) s zero_cnt in
      (
        started-restarted (start_loop api Event 4 self (api.register s))
            ∙ ap (Option.map manager_of) first,
        again,
      )
