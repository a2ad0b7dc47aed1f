-- ===== src/Wifi/Control/Cleanup.antt =====
-- What add_and_configure_network of network-daemon/src/wifi/wpa_supplicant/mod.rs leaves in wpa_supplicant
-- when it fails.
use mathlib.Core.Path.{subst}
use network_daemon.Prelude.{
  ℕ, ◌≡◌, ◌≢◌, refl, sym, inl, inr, ◌⊎◌, Option, none, some, Bool, true, false, List, [], Result,
  ok, err, Result-cases,
}
use network_daemon.Prelude.Int.{ℤ}
use network_daemon.Mac.{MacAddr}
use network_daemon.Wifi.Security.{Security, opened, eap, psk, unknown}
use network_daemon.Prelude.Search.{codes}
use network_daemon.Ip.{unwrap_or}
use network_daemon.Wifi.Commands.{not_supported}
use network_daemon.Wifi.Control.{
  Machine, Error, Call, raise, configure_bssid, configure_open, configure_psk, configure_eap,
  configure_hidden, pure, or_remove, add_network, remove_network, enable_network, configure_ssid,
  configure_target, configure_security, configure_visibility, configure_network,
  add_and_configure_network,
}

-- Whether the secrets that a security wants are there.
abbrev pub HasSecrets : Security → Option (List ℕ) → Option (List ℕ) → Type 0
HasSecrets psk password identity = password ≢ none
HasSecrets eap password identity = identity ≢ none
HasSecrets opened password identity = Unit
HasSecrets unknown password identity = Unit

-- What follows a call, by how it ended.
abbrev pub resume :
    {State A B : Type 0} (m : Machine State)
    → Result (Error m) A × State
    → (A → Call m B)
    → Result (Error m) B × State
resume m (r, s) k = elim r [ ok a ↦ k a s | err e ↦ (err e, s) ]

resume_ok :
    {State A B : Type 0} (m : Machine State) (r : Result (Error m) A × State) (a : A)
    (k : A → Call m B)
    → r.0 ≡ ok a
    → resume m r k ≡ k a r.1
resume_ok m (ok x, s) a k e = let same : x ≡ a = cc in rw same refl
resume_ok m (err x, s) a k e = cc

module _ {State : Type 0} (m : Machine State) (nwid : ℤ) where
  -- A step that ends well, or in the state after the removal of the network was asked for.
  abbrev pub Removes : Result (Error m) (Unit {0}) × State → Type 0
  Removes (ok _, s) = Unit
  Removes (err _, s) = (t : State) × (s ≡ (remove_network m nwid t).1)

  or_remove-Removes : (step : Call m (Unit {0})) (s : State) → Removes (or_remove m nwid step s)
  unfolding or_remove
  or_remove-Removes step s = elim (Result-cases (step s).0) [
    | inl (_, good) ↦ rw (good, or_remove) tt
    | inr (_, bad) ↦ rw (bad, or_remove) ((step s).1, refl)
  ]

  configure_target-Removes :
      (bssid : Option MacAddr) (s : State) → Removes (configure_target m nwid bssid s)
  unfolding configure_target
  configure_target-Removes none s = tt
  configure_target-Removes (some bssid) s = or_remove-Removes (configure_bssid m nwid bssid) s

  configure_security-Removes :
      (security : Security) (password identity : Option (List ℕ)) (s : State)
      → HasSecrets security password identity
      → Removes (configure_security m nwid security password identity s)
  unfolding configure_security
  configure_security-Removes opened password identity s h =
      or_remove-Removes (configure_open m nwid) s
  configure_security-Removes psk none identity s h = absurd (h refl)
  configure_security-Removes psk (some password) identity s h =
      or_remove-Removes (configure_psk m nwid password) s
  configure_security-Removes eap password none s h = absurd (h refl)
  configure_security-Removes eap password (some identity) s h =
      or_remove-Removes (configure_eap m nwid identity (unwrap_or [] password)) s
  configure_security-Removes unknown password identity s h =
      or_remove-Removes (raise m (not_supported (codes "unknown security type"))) s

  configure_visibility-Removes :
      (hidden : Bool) (s : State) → Removes (configure_visibility m nwid hidden s)
  unfolding configure_visibility
  configure_visibility-Removes true s = or_remove-Removes (configure_hidden m nwid) s
  configure_visibility-Removes false s = tt

  -- A call that ends well, or fails right after the removal was asked for, or in enabling the network.
  abbrev pub Cleans : {A : Type 0} → Result (Error m) A × State → Type 0
  Cleans (ok _, s) = Unit
  Cleans (err e, s) =
      ((t : State) × (s ≡ (remove_network m nwid t).1))
      ⊎ ((t : State) × (enable_network m nwid t ≡ (err e, s)))

  Removes-Cleans : (r : Result (Error m) (Unit {0}) × State) → Removes r → Cleans r
  Removes-Cleans (ok _, s) h = tt
  Removes-Cleans (err _, s) h = inl h

  bind-Cleans_from :
      {A B : Type 0} (r : Result (Error m) A × State) (k : A → Call m B)
      → Cleans r
      → ((a : A) (t : State) → Cleans (k a t))
      → Cleans (resume m r k)
  bind-Cleans_from (ok a, s) k h rest = rest a s
  bind-Cleans_from (err e, s) k h rest = h

  enable-Cleans_from :
      (r : Result (Error m) (Unit {0}) × State) (t : State) → enable_network m nwid t ≡ r → Cleans r
  enable-Cleans_from (ok _, s) t e = tt
  enable-Cleans_from (err _, s) t e = inr (t, e)

  bind-Cleans :
      {A B : Type 0} (f : Call m A) (k : A → Call m B) (s : State)
      → Cleans (f s)
      → ((a : A) (t : State) → Cleans (k a t))
      → Cleans (resume m (f s) k)
  bind-Cleans f k s h rest = bind-Cleans_from (f s) k h rest

  enable-Cleans : (s : State) → Cleans (enable_network m nwid s)
  enable-Cleans s = enable-Cleans_from (enable_network m nwid s) s refl

  configure_network-Cleans :
      (ssid : List ℕ) (bssid : Option MacAddr) (security : Security)
      (password identity : Option (List ℕ)) (hidden : Bool) (s : State)
      → HasSecrets security password identity
      → Cleans (configure_network m ssid bssid security password identity hidden nwid s)
  unfolding configure_network
  configure_network-Cleans ssid bssid security password identity hidden s secrets =
      let named = or_remove m nwid (configure_ssid m nwid ssid) in
      let target = configure_target m nwid bssid in
      let secured = configure_security m nwid security password identity in
      let shown = configure_visibility m nwid hidden in
      let enabled = enable_network m nwid in
      let last : Call m ℤ = λ t. resume m (enabled t) (λ _. pure m nwid) in
      let after_secured : Call m ℤ = λ t. resume m (shown t) (λ _. last) in
      let after_target : Call m ℤ = λ t. resume m (secured t) (λ _. after_secured) in
      let after_named : Call m ℤ = λ t. resume m (target t) (λ _. after_target) in
      bind-Cleans named (λ _. after_named) s
        (Removes-Cleans (named s) (or_remove-Removes (configure_ssid m nwid ssid) s))
        λ _ s1.
          bind-Cleans target (λ _. after_target) s1
            (Removes-Cleans (target s1) (configure_target-Removes bssid s1))
            λ _ s2.
              bind-Cleans secured (λ _. after_secured) s2
                (Removes-Cleans (secured s2)
                  (configure_security-Removes security password identity s2 secrets))
                λ _ s3.
                  bind-Cleans shown (λ _. last) s3
                    (Removes-Cleans (shown s3) (configure_visibility-Removes hidden s3))
                    λ _ s4. bind-Cleans enabled (λ _. pure m nwid) s4 (enable-Cleans s4) (λ _ _. tt)

  Cleans-err :
      (r : Result (Error m) ℤ × State) (e : Error m)
      → Cleans r
      → r.0 ≡ err e
      → ((t : State) × (r.1 ≡ (remove_network m nwid t).1))
        ⊎ ((t : State) × (enable_network m nwid t ≡ (err e, r.1)))
  Cleans-err (ok _, s) e h bad = absurd (cc)
  Cleans-err (err x, s) e h bad = let same : x ≡ e = cc in rw (← same) h

  -- With the secrets that the security wants, adding and configuring a network fails only in two ways once
  -- wpa_supplicant has given it a number: right after the network's removal was asked for, or with the
  -- error of enabling it.
  pub add_and_configure_network_fails :
      (ssid : List ℕ) (bssid : Option MacAddr) (security : Security)
      (password identity : Option (List ℕ)) (hidden : Bool) (s : State) (e : Error m)
      → HasSecrets security password identity
      → (add_network m s).0 ≡ ok nwid
      → (add_and_configure_network m ssid bssid security password identity hidden s).0 ≡ err e
      → let after =
          (add_and_configure_network m ssid bssid security password identity hidden s).1 in
        ((t : State) × (after ≡ (remove_network m nwid t).1))
        ⊎ ((t : State) × (enable_network m nwid t ≡ (err e, after)))
  unfolding add_and_configure_network
  add_and_configure_network_fails ssid bssid security password identity hidden s e secrets added
        failed =
      let call = add_and_configure_network m ssid bssid security password identity hidden s in
      let s1 = (add_network m s).1 in
      let same : call ≡ configure_network m ssid bssid security password identity hidden nwid s1 =
        resume_ok m (add_network m s) nwid
          (configure_network m ssid bssid security password identity hidden) added in
      Cleans-err call e
        (subst Cleans (sym same)
          (configure_network-Cleans ssid bssid security password identity hidden s1 secrets))
        failed
