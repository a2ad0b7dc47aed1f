-- ===== src/Wifi/Supplicant/Connected.antt =====
-- A connection of network-daemon/src/wifi/wpa_supplicant/mod.rs: which profile it takes, and what becomes
-- of it.
use mathlib.Core.Path.{subst}
use network_daemon.Prelude.{
  ℕ, suc, ◌≡◌, refl, ap, sym, ◌∙◌, inl, inr, Option, none, some, true, List, [], ◌∷◌, ok,
  Result-cases, Option-cases, ◌===◌, arith,
}
use network_daemon.Prelude.Map
use network_daemon.Prelude.Int.{ℤ}
use network_daemon.Mac.{MacAddr}
use network_daemon.Wifi.Security.{Security}
use network_daemon.Wifi.Network.{KnownNetwork, ScanResult, current}
use network_daemon.Wifi.Control.{Machine}
use network_daemon.Wifi.Control.Links.{select_network}
use network_daemon.Wifi.Control.Given.{Gives}
use network_daemon.Wifi.Supplicant.{
  SsidKey, SsidKey_key, MacAddr_key, Text_key, KnownSsidEntry, WpaSupplicant, entry_of, find_in,
}
use network_daemon.Wifi.Supplicant.Registry.{key_or_find, unregister_wpa_network}
use network_daemon.Wifi.Supplicant.Choice.{
  find_best, first_of, select_in, select_known_candidate, connect_to, connect_known,
}
use network_daemon.Wifi.Supplicant.Profiles.{profile, key_of}
use network_daemon.Wifi.Supplicant.Filed.{IsFiled}
use network_daemon.Wifi.Supplicant.Edits.{
  Names, Sets, connect_to-Connects, Connects-ok, key_or_find-Names,
}
use network_daemon.Wifi.Supplicant.Selected.{FoundAt, Found-of}

-- A network that is in an entry.
abbrev pub Holds : KnownSsidEntry → KnownNetwork → Type 0
Holds entry n = (b : Option MacAddr) × (find_in b entry ≡ some n)

FoundAt-Holds :
    (key : SsidKey) (entry : KnownSsidEntry) (scans : List ScanResult) (idx : ℕ) (z : ℤ) (i : ℕ)
    (n : KnownNetwork)
    → FoundAt key entry scans idx z i n
    → Holds entry n
unfolding find_in
FoundAt-Holds key entry [] idx z i n h = absurd h
FoundAt-Holds key entry (scan ∷ more) idx z i n (inl (_, _, e)) =
    (some scan.bssid, ground (arith, e))
FoundAt-Holds key entry (scan ∷ more) idx z i n (inr h) =
    FoundAt-Holds key entry more (suc idx) z i n h

first_of-get :
    (l : List (MacAddr × KnownNetwork)) (n : KnownNetwork)
    → first_of l ≡ some n
    → (mac : MacAddr) × (Map.get mac l ≡ some n)
unfolding first_of Map.get
first_of-get [] n e = cc
first_of-get ((mac, k) ∷ l) n e = (mac, ground (arith, e))

named_ssid : (ssid : List ℕ) (k : SsidKey) → (k.ssid === ssid) ≡ true → k.ssid ≡ ssid
named_ssid ssid k h = ground arith

module _ {State : Type 0} (m : Machine State) where
  select_in-Holds :
      (ssid : List ℕ) (bssid target : Option MacAddr) (key : SsidKey) (entry : KnownSsidEntry)
      (scans : List ScanResult) (n : KnownNetwork)
      → select_in m ssid bssid key entry scans ≡ ok (target, n)
      → Holds entry n
  unfolding select_in find_in
  select_in-Holds ssid (some mac) target key entry scans n e =
      elim (Option-cases (Map.get mac entry.by_bssid)) [
        | inr (k, own) ↦ (some mac, ground (arith, own, e))
        | inl miss ↦ elim (Option-cases entry.no_bssid) [
          | inr (k, roaming) ↦ (none, ground (arith, miss, roaming, e))
          | inl none_at_all ↦ absurd (ground (arith, miss, none_at_all, e))
        ]
      ]
  select_in-Holds ssid none target key entry scans n e = elim (Option-cases entry.no_bssid) [
    | inr (k, roaming) ↦ (none, ground (arith, roaming, e))
    | inl locked ↦ elim (Option-cases (find_best key entry scans 0 none)) [
      | inr ((z, i, k), best) ↦
          let same : k ≡ n = ground (arith, locked, best, e) in
          subst (Holds entry) same
            (FoundAt-Holds key entry scans 0 z i k (Found-of key entry scans (some (z, i, k)) best))
      | inl unseen ↦ elim (Option-cases (first_of entry.by_bssid)) [
        | inr (k, first) ↦
            let same : k ≡ n = ground (arith, locked, unseen, first, e) in
            let (mac, at) = first_of-get entry.by_bssid k first in
            subst (Holds entry) same (some mac, at)
        | inl nothing ↦ absurd (ground (arith, locked, unseen, nothing, e))
      ]
    ]
  ]

  select_known_candidate-profile :
      (ssid : List ℕ) (security : Option Security) (bssid target : Option MacAddr)
      (self : WpaSupplicant) (n : KnownNetwork)
      → select_known_candidate m ssid security bssid self ≡ ok (target, n)
      → (key : SsidKey) × (b : Option MacAddr) × Names ssid security key
        × (profile key b self.known_networks ≡ some n)
  unfolding select_known_candidate entry_of
  select_known_candidate-profile ssid security bssid target self n e =
      let named = λ (key : SsidKey) (entry : KnownSsidEntry). key.ssid === ssid in
      elim (Option-cases (key_or_find ssid security named self.known_networks)) [
        | inl miss ↦ absurd (ground (arith, e, miss))
        | inr (key, hit) ↦ elim (Option-cases (Map.get key self.known_networks)) [
          | inl lost ↦ absurd (ground (arith, e, hit, lost))
          | inr (entry, at) ↦
              let here : entry_of key self.known_networks ≡ entry = rw (at, entry_of) refl in
              let chosen : select_in m ssid bssid key entry self.scan_results ≡ ok (target, n) =
                ground (arith, e, hit, at) in
              let (b, held) =
                select_in-Holds ssid bssid target key entry self.scan_results n chosen in
              let sound =
                λ (k : SsidKey) (x : KnownSsidEntry) (p : named k x ≡ true). named_ssid ssid k p in
              (
                key,
                b,
                key_or_find-Names ssid security named self.known_networks key sound hit,
                ap (find_in b) here ∙ held,
              )
        ]
      ]

  connect_done :
      (target : Option MacAddr) (known : KnownNetwork) (self : WpaSupplicant) (s : State)
      → (connect_to m target known self s).0 ≡ ok tt
      → (nwid : ℤ) × Gives m (unregister_wpa_network m known s) nwid
        × ((t : State) × (select_network m nwid none t
              ≡ (ok tt, (connect_to m target known self s).2)))
        × Sets
            (key_of known)
            known.bssid
            (some (record known { id = some nwid; state = current }))
            self.known_networks
            (connect_to m target known self s).1.known_networks
  connect_done target known self s h =
      Connects-ok m known self s (connect_to m target known self s)
        (connect_to-Connects m target known self s) h

  -- With the known networks filed under their own SSID, security and address, a connection that succeeds
  -- takes a known network of the SSID and, if one is given, of the security, and sets just this one: it
  -- has the number with which wpa_supplicant answered ADD_NETWORK, after the removal of the network's old
  -- number, if any, was asked for, and is the current network; and the last call selected this number, with
  -- success.
  pub connect_known_lem :
      (ssid : List ℕ) (security : Option Security) (bssid : Option MacAddr) (self : WpaSupplicant)
      (s : State)
      → IsFiled self.known_networks
      → (connect_known m ssid security bssid self s).0 ≡ ok tt
      → (known : KnownNetwork) × Names ssid security (key_of known)
        × (profile (key_of known) known.bssid self.known_networks ≡ some known)
        × ((nwid : ℤ) × Gives m (unregister_wpa_network m known s) nwid
            × ((t : State) × (select_network m nwid none t
                  ≡ (ok tt, (connect_known m ssid security bssid self s).2)))
            × Sets
                (key_of known)
                known.bssid
                (some (record known { id = some nwid; state = current }))
                self.known_networks
                (connect_known m ssid security bssid self s).1.known_networks)
  unfolding connect_known
  connect_known_lem ssid security bssid self s filed h =
      elim (Result-cases (select_known_candidate m ssid security bssid self)) [
        | inr (_, bad) ↦ absurd (ground (arith, h, bad))
        | inl ((target, known), good) ↦
            let (key, b, named, at) =
              select_known_candidate-profile ssid security bssid target self known good in
            let (own_key, own_bssid) = filed key b known at in
            let same : connect_known m ssid security bssid self s
                ≡ connect_to m target known self s =
              rw (good, connect_known) refl in
            let done = connect_done target known self s (sym (ap (λ r. r.0) same) ∙ h) in
            (
              known,
              rw own_key named,
              ap (λ k. profile k known.bssid self.known_networks) own_key
                  ∙ ap (λ c. profile key c self.known_networks) own_bssid
                  ∙ at,
              rw same done,
            )
      ]
