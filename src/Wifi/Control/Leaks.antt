-- ===== src/Wifi/Control/Leaks.antt =====
-- What add_and_configure_network of network-daemon/src/wifi/wpa_supplicant/mod.rs has sent when a secret is
-- missing.
use network_daemon.Prelude.{
  ℕ, ◌≡◌, refl, ap, ◌∙◌, Option, none, some, Bool, List, [], ◌∷◌, ◌++◌, Result, ok, err, arith,
}
use network_daemon.Prelude.Int.{ℤ, parse_i32}
use network_daemon.Prelude.Search.{codes, same_text}
use network_daemon.Prelude.Text.{trim, is_whitespace}
use network_daemon.Mac.{MacAddr, fmt}
use network_daemon.Wifi.Security.{Security, opened, eap, psk, unknown}
use network_daemon.Wifi.Commands.{WpaCommand, print_command}
use network_daemon.Wifi.Control.{
  Machine, Error, Call, trim_reply, quoted, or_remove, request, request_ok, ask, order,
  set_network_value, add_network, configure_ssid, configure_bssid, configure_target,
  configure_security, configure_network, add_and_configure_network, configure_visibility,
  enable_network, pure,
}
use network_daemon.Wifi.Control.Cleanup.{resume}

-- Whether a secret that a security wants is missing.
abbrev pub LacksSecret : Security → Option (List ℕ) → Option (List ℕ) → Type 0
LacksSecret psk password identity = password ≡ none
LacksSecret eap password identity = identity ≡ none
LacksSecret opened password identity = ⊥
LacksSecret unknown password identity = ⊥

-- The commands that were sent, the last one first.
abbrev pub Log : Type 0
Log = List (List ℕ)

-- A wpa_supplicant that answers by what it was sent so far.
abbrev pub recorded : (E : Type 0) → (Log → List ℕ → Result E (List ℕ)) → Machine Log
recorded E reply = record {
  SocketError = E;
  exchange = λ cmd log. (reply log cmd, cmd ∷ log);
  tell = λ event log. log;
  ask_subscribe = λ log. (ok 0, log);
  from_utf8_lossy = λ s. s;
  to_uppercase = λ s. s;
}

-- SET_NETWORK, as it is sent.
abbrev pub set_text : ℤ → List ℕ → List ℕ → List ℕ
set_text nwid key value = print_command (WpaCommand.set_network nwid key value)

-- What sets the address, if there is one.
abbrev pub address_sent : ℤ → Option MacAddr → Log
address_sent nwid none = []
address_sent nwid (some bssid) = set_text nwid (codes "bssid") (fmt bssid) ∷ []

module _ (E : Type 0) (reply : Log → List ℕ → Result E (List ℕ)) (nwid : ℤ) where
  abbrev m : Machine Log
  m = recorded E reply

  -- SET_NETWORK of the number is always answered by OK.
  abbrev pub Obeys : Type 0
  Obeys = (log : Log) (key value : List ℕ) → reply log (set_text nwid key value) ≡ ok (codes "OK")

  numbered :
      (log : Log) (given : List ℕ)
      → reply log (codes "ADD_NETWORK") ≡ ok given
      → parse_i32 (trim (trim_reply given)) ≡ some nwid
      → add_network m log ≡ (ok nwid, codes "ADD_NETWORK" ∷ log)
  unfolding add_network ask request
  numbered log given added number = ground (arith, added, number)

  set_obeyed :
      Obeys
      → (log : Log) (key value : List ℕ)
      → set_network_value m nwid key value log ≡ (ok tt, set_text nwid key value ∷ log)
  unfolding set_network_value order request_ok request trim_reply same_text is_whitespace
  set_obeyed obeys log key value = ground (arith, obeys log key value)

  or_remove_obeyed :
      (step : Call m (Unit {0})) (log after : Log)
      → step log ≡ (ok tt, after)
      → or_remove m nwid step log ≡ (ok tt, after)
  unfolding or_remove
  or_remove_obeyed step log after h = ground (arith, ap (λ r. r.0) h, ap (λ r. r.1) h)

  named :
      (ssid : List ℕ) (log : Log)
      → Obeys
      → or_remove m nwid (configure_ssid m nwid ssid) log
        ≡ (ok tt, set_text nwid (codes "ssid") (quoted ssid) ∷ log)
  unfolding or_remove configure_ssid
  named ssid log obeys =
      or_remove_obeyed (configure_ssid m nwid ssid) log _
        (set_obeyed obeys log (codes "ssid") (quoted ssid))

  aimed :
      (bssid : Option MacAddr) (log : Log)
      → Obeys
      → configure_target m nwid bssid log ≡ (ok tt, address_sent nwid bssid ++ log)
  unfolding or_remove configure_target configure_bssid
  aimed none log obeys = refl
  aimed (some bssid) log obeys =
      or_remove_obeyed (configure_bssid m nwid bssid) log _
        (set_obeyed obeys log (codes "bssid") (fmt bssid))

  refused :
      (security : Security) (password identity : Option (List ℕ)) (log : Log)
      → LacksSecret security password identity
      → (e : Error m) × (configure_security m nwid security password identity log ≡ (err e, log))
  unfolding configure_security
  refused psk none identity log h = (_, refl)
  refused psk (some password) identity log h = absurd (cc)
  refused eap password none log h = (_, refl)
  refused eap password (some identity) log h = absurd (cc)
  refused opened password identity log h = absurd h
  refused unknown password identity log h = absurd h

  -- Where a secret is missing that the security wants, and wpa_supplicant gives a number and obeys every
  -- SET_NETWORK of it, adding a network fails, and exactly these commands are sent: ADD_NETWORK, the
  -- setting of the SSID, and that of the address, if there is one. The network is not removed.
  pub missing_secret_leaks :
      (ssid : List ℕ) (bssid : Option MacAddr) (security : Security)
      (password identity : Option (List ℕ)) (hidden : Bool) (log : Log) (given : List ℕ)
      → LacksSecret security password identity
      → reply log (codes "ADD_NETWORK") ≡ ok given
      → parse_i32 (trim (trim_reply given)) ≡ some nwid
      → Obeys
      → (e : Error m) × (add_and_configure_network m ssid bssid security password identity hidden
            log
          ≡ (
            err e,
            address_sent nwid bssid
                ++ set_text nwid (codes "ssid") (quoted ssid) ∷ codes "ADD_NETWORK" ∷ log,
          ))
  unfolding add_and_configure_network configure_network
  missing_secret_leaks ssid bssid security password identity hidden log given lacks added number
        obeys =
      let after_add = codes "ADD_NETWORK" ∷ log in
      let after_ssid = set_text nwid (codes "ssid") (quoted ssid) ∷ after_add in
      let after = address_sent nwid bssid ++ after_ssid in
      let (e, refusal) = refused security password identity after lacks in
      let first = named ssid after_add obeys in
      let second = aimed bssid after_ssid obeys in
      let shown = configure_visibility m nwid hidden in
      let last : Call m ℤ = λ t. resume m (enable_network m nwid t) (λ _. pure m nwid) in
      let after_secured : Call m ℤ = λ t. resume m (shown t) (λ _. last) in
      let secured = configure_security m nwid security password identity in
      let after_target : Call m ℤ = λ t. resume m (secured t) (λ _. after_secured) in
      let after_named : Call m ℤ =
        λ t. resume m (configure_target m nwid bssid t) (λ _. after_target) in
      let configure = configure_network m ssid bssid security password identity hidden in
      (
        e,
        ap (λ r. resume m r configure) (numbered log given added number)
            ∙ ap (λ r. resume m r (λ _. after_named)) first
            ∙ ap (λ r. resume m r (λ _. after_target)) second
            ∙ ap (λ r. resume m r (λ _. after_secured)) refusal,
      )
