-- ===== src/Wifi/Control/Given.antt =====
-- Which number a network has that add_and_configure_network of
-- network-daemon/src/wifi/wpa_supplicant/mod.rs has added.
use network_daemon.Prelude.{
  ℕ, ◌≡◌, refl, ap, ◌∙◌, inl, inr, Option, some, Bool, List, Result, ok, err, Result-cases,
  Option-cases, arith,
}
use network_daemon.Prelude.Int.{ℤ, parse_i32}
use network_daemon.Prelude.Search.{codes}
use network_daemon.Prelude.Text.{trim}
use network_daemon.Mac.{MacAddr}
use network_daemon.Wifi.Security.{Security}
use network_daemon.Wifi.Control.{
  Machine, Error, Call, pure, or_remove, trim_reply, ask, request, add_network, enable_network,
  configure_ssid, configure_target, configure_security, configure_visibility, configure_network,
  add_and_configure_network,
}
use network_daemon.Wifi.Control.Cleanup.{resume}

-- A call that ended well was followed by one that did.
resume-ok :
    {State A B : Type 0} (m : Machine State) (r : Result (Error m) A × State) (k : A → Call m B)
    (b : B)
    → (resume m r k).0 ≡ ok b
    → (a : A) × (r.0 ≡ ok a) × ((k a r.1).0 ≡ ok b)
resume-ok m (ok a, s) k b h = (a, refl, h)
resume-ok m (err e, s) k b h = absurd (cc)

ok_inj : {E A : Type 0} (a b : A) → Path (Result E A) (ok a) (ok b) → a ≡ b
ok_inj a b h = cc

module _ {State : Type 0} (m : Machine State) where
  -- wpa_supplicant has answered ADD_NETWORK in the state by the number.
  abbrev pub Gives : State → ℤ → Type 0
  Gives s nwid =
      (reply : List ℕ) × ((m.exchange (codes "ADD_NETWORK") s).0 ≡ ok reply)
      × (parse_i32 (trim (trim_reply reply)) ≡ some nwid)

  add_network-Gives : (s : State) (nwid : ℤ) → (add_network m s).0 ≡ ok nwid → Gives s nwid
  unfolding add_network ask request
  add_network-Gives s nwid h = elim (Result-cases (m.exchange (codes "ADD_NETWORK") s).0) [
    | inr (_, bad) ↦ absurd (ground (arith, bad, h))
    | inl (reply, good) ↦ elim (Option-cases (parse_i32 (trim (trim_reply reply)))) [
      | inl miss ↦ absurd (ground (arith, good, miss, h))
      | inr (n, read) ↦
          let same : n ≡ nwid = ground (arith, good, read, h) in (reply, good, read ∙ ap some same)
    ]
  ]

  configure_network_returns :
      (ssid : List ℕ) (bssid : Option MacAddr) (security : Security)
      (password identity : Option (List ℕ)) (hidden : Bool) (nwid n : ℤ) (s : State)
      → (configure_network m ssid bssid security password identity hidden nwid s).0 ≡ ok n
      → nwid ≡ n
  unfolding configure_network
  configure_network_returns ssid bssid security password identity hidden nwid n s h =
      let target = configure_target m nwid bssid in
      let secured = configure_security m nwid security password identity in
      let shown = configure_visibility m nwid hidden in
      let last : Call m ℤ = λ t. resume m (enable_network m nwid t) (λ _. pure m nwid) in
      let after_secured : Call m ℤ = λ t. resume m (shown t) (λ _. last) in
      let after_target : Call m ℤ = λ t. resume m (secured t) (λ _. after_secured) in
      let after_named : Call m ℤ = λ t. resume m (target t) (λ _. after_target) in
      let r1 = or_remove m nwid (configure_ssid m nwid ssid) s in
      let (_, _, h1) = resume-ok m r1 (λ _. after_named) n h in
      let (_, _, h2) = resume-ok m (target r1.1) (λ _. after_target) n h1 in
      let r3 = secured (target r1.1).1 in
      let (_, _, h3) = resume-ok m r3 (λ _. after_secured) n h2 in
      let (_, _, h4) = resume-ok m (shown r3.1) (λ _. last) n h3 in
      let (_, _, h5) = resume-ok m (enable_network m nwid (shown r3.1).1) (λ _. pure m nwid) n h4 in
      ok_inj nwid n h5

  -- A network that was added and configured has the number that wpa_supplicant gave.
  pub add_and_configure_network-Gives :
      (ssid : List ℕ) (bssid : Option MacAddr) (security : Security)
      (password identity : Option (List ℕ)) (hidden : Bool) (s : State) (nwid : ℤ)
      → (add_and_configure_network m ssid bssid security password identity hidden s).0 ≡ ok nwid
      → Gives s nwid
  unfolding add_and_configure_network
  add_and_configure_network-Gives ssid bssid security password identity hidden s nwid h =
      let configure = configure_network m ssid bssid security password identity hidden in
      let (n, added, rest) = resume-ok m (add_network m s) configure nwid h in
      let same =
        configure_network_returns ssid bssid security password identity hidden n nwid
          (add_network m s).1 rest in
      add_network-Gives s nwid (added ∙ ap ok same)
