-- ===== src/Wifi/Supplicant/Choice.antt =====
-- network-daemon/src/wifi/wpa_supplicant/mod.rs: choosing a known network and connecting to it.
use network_daemon.Prelude.{
  ℕ, suc, Option, none, some, Bool, false, ◌||◌, ◌&&◌, List, [], ◌∷◌, if◌then◌else◌, Result, ok,
  err, leb, ◌===◌,
}
use network_daemon.Prelude.Map
use network_daemon.Prelude.Int.{ℤ, ltb_ℤ, eqb_ℤ}
use network_daemon.Mac.{MacAddr}
use network_daemon.Wifi.Security.{Security, Security_key}
use network_daemon.Wifi.Network.{KnownNetwork, current, ScanResult}
use network_daemon.Wifi.Commands.{ssid_unavailable, known_network_not_found}
use network_daemon.Wifi.Control.{Machine, Error, add_and_configure_network}
use network_daemon.Wifi.Control.Links.{select_network}
use network_daemon.Wifi.Supplicant.{
  MacAddr_key, Text_key, SsidKey, SsidKey_key, KnownSsidEntry, WpaSupplicant, file_network,
}
use network_daemon.Wifi.Supplicant.Registry.{key_or_find, Outcome, unregister_wpa_network}

-- The strongest scan result so far: its signal, its index and the network with its address.
abbrev pub Best : Type 0
Best = Option (ℤ × ℕ × KnownNetwork)

unfoldable pub keeps_best : Best → ℤ → ℕ → Bool
keeps_best none signal idx = false
keeps_best (some (best_signal, best_idx, _)) signal idx =
    ltb_ℤ signal best_signal || (eqb_ℤ best_signal signal && leb best_idx idx)

unfoldable pub better : Best → ScanResult → ℕ → Option KnownNetwork → Best
unfolding keeps_best
better best scan idx none = best
better best scan idx (some known) =
    if keeps_best best scan.signal idx then best else some (scan.signal, idx, known)

-- The loop over the scan results of an SSID and security.
unfoldable pub find_best : SsidKey → KnownSsidEntry → List ScanResult → ℕ → Best → Best
unfolding better Map.get
find_best key entry [] idx best = best
find_best key entry (scan ∷ more) idx best =
    let next =
      if scan.ssid === key.ssid && scan.security === key.security
      then better best scan idx (Map.get scan.bssid entry.by_bssid)
      else best in
    find_best key entry more (suc idx) next

unfoldable pub first_of : List (MacAddr × KnownNetwork) → Option KnownNetwork
first_of [] = none
first_of ((_, n) ∷ _) = some n

module _ {State : Type 0} (m : Machine State) where
  -- The choice in the entry of the key.
  unfoldable pub select_in :
      List ℕ
      → Option MacAddr
      → SsidKey
      → KnownSsidEntry
      → List ScanResult
      → Result (Error m) (Option MacAddr × KnownNetwork)
  unfolding Map.get find_best first_of
  select_in ssid (some mac) key entry scans = elim (Map.get mac entry.by_bssid) [
    | some known ↦ ok (some mac, known)
    | none ↦ elim entry.no_bssid [
      | some known ↦ ok (some mac, known)
      | none ↦ err (known_network_not_found ssid (some mac))
    ]
  ]
  select_in ssid none key entry scans = elim entry.no_bssid [
    | some known ↦ ok (none, known)
    | none ↦ elim (find_best key entry scans 0 none) [
      | some (_, _, known) ↦ ok (none, known)
      | none ↦ elim (first_of entry.by_bssid) [
        | some known ↦ ok (none, known)
        | none ↦ err (ssid_unavailable ssid)
      ]
    ]
  ]

  unfoldable pub select_known_candidate :
      List ℕ
      → Option Security
      → Option MacAddr
      → WpaSupplicant
      → Result (Error m) (Option MacAddr × KnownNetwork)
  unfolding key_or_find Map.get select_in
  select_known_candidate ssid security requested_bssid self =
      elim (key_or_find ssid security (λ key entry. key.ssid === ssid) self.known_networks) [
        | none ↦ err (known_network_not_found ssid requested_bssid)
        | some key ↦ elim (Map.get key self.known_networks) [
          | none ↦ err (known_network_not_found ssid requested_bssid)
          | some entry ↦ select_in ssid requested_bssid key entry self.scan_results
        ]
      ]

  -- The connection to the network that was chosen.
  unfoldable pub connect_to :
      Option MacAddr → KnownNetwork → WpaSupplicant → State → Outcome m (Unit {0})
  unfolding unregister_wpa_network add_and_configure_network select_network file_network
  connect_to target_bssid known self s =
      let (added, s') =
        add_and_configure_network m known.ssid target_bssid known.security known.password
          known.identity known.hidden (unregister_wpa_network m known s) in
      elim added [
        | err e ↦ (err e, self, s')
        | ok nwid ↦
            let (selected, s'') = select_network m nwid none s' in
            let connected = record known { id = some nwid; state = current } in
            elim selected [
              | err e ↦ (err e, self, s'')
              | ok _ ↦ (
                ok tt,
                record self { known_networks = file_network connected self.known_networks },
                s'',
              )
            ]
      ]

  unfoldable pub connect_known :
      List ℕ → Option Security → Option MacAddr → WpaSupplicant → State → Outcome m (Unit {0})
  unfolding select_known_candidate connect_to
  connect_known ssid security bssid self s =
      elim (select_known_candidate ssid security bssid self) [
        | err e ↦ (err e, self, s)
        | ok (target_bssid, known) ↦ connect_to target_bssid known self s
      ]
