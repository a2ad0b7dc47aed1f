-- ===== src/Wifi/Supplicant/Edits.antt =====
-- What registering, removing and connecting do to the profiles of
-- network-daemon/src/wifi/wpa_supplicant/mod.rs.
use network_daemon.Prelude.{
  ℕ, ◌≡◌, refl, ap, sym, ◌∙◌, inl, inr, Option, none, some, Bool, true, List, [], ◌∷◌, Result, ok,
  err, Result-cases, if◌then◌else◌, Option-cases, Bool-cases, ◌&&◌, ◌===◌, arith,
}
use network_daemon.Prelude.Map
use network_daemon.Prelude.Int.{ℤ}
use network_daemon.Mac.{MacAddr}
use network_daemon.Wifi.Security.{Security}
use network_daemon.Wifi.Network.{KnownNetwork, current}
use network_daemon.Wifi.Control.{Machine, Error, remove_network, add_and_configure_network}
use network_daemon.Wifi.Control.Links.{select_network}
use network_daemon.Wifi.Control.Given.{Gives, add_and_configure_network-Gives}
use network_daemon.Wifi.Supplicant.{
  SsidKey, SsidKey_key, MacAddr_key, Text_key, KnownSsidEntry, KnownNetworks, WpaSupplicant,
  entry_of, find_in, take_from,
}
use network_daemon.Wifi.Supplicant.Registry.{
  prune, validate, new_profile, keep_secret, replace_known, unregister_wpa_network,
  register_known_network, remove_at, key_or_find, remove_known_network, is_some, Outcome, find_key,
}
use network_daemon.Wifi.Supplicant.Choice.{connect_to}
use network_daemon.Wifi.Supplicant.Profiles.{
  profile, key_of, same_place, profile-file_network, profile-put_in, profile-take_from,
  profile-prune,
}

-- A map of profiles in which one place has changed.
abbrev pub Sets :
    SsidKey → Option MacAddr → Option KnownNetwork → KnownNetworks → KnownNetworks → Type 0
Sets key b new old networks =
    (j : SsidKey) (c : Option MacAddr)
    → profile j c networks ≡ (if same_place key b j c then new else profile j c old)

find_key_passes :
    (test : SsidKey → KnownSsidEntry → Bool) (networks : KnownNetworks) (key : SsidKey)
    → find_key test networks ≡ some key
    → (entry : KnownSsidEntry) × (test key entry ≡ true)
unfolding find_key
find_key_passes test [] key e = cc
find_key_passes test ((k, entry) ∷ more) key e = elim (Bool-cases (test k entry)) [
  | inl passed ↦ let same : k ≡ key = ground (arith, e, passed) in (entry, rw (← same) passed)
  | inr failed ↦ find_key_passes test more key (ground (arith, e, failed))
]

-- The key that a name and a security stand for.
abbrev pub Names : List ℕ → Option Security → SsidKey → Type 0
Names ssid none key = key.ssid ≡ ssid
Names ssid (some security) key = (key.ssid ≡ ssid) × (key.security ≡ security)

-- What is found under a name has this name.
pub key_or_find-Names :
    (ssid : List ℕ) (security : Option Security) (test : SsidKey → KnownSsidEntry → Bool)
    (networks : KnownNetworks) (key : SsidKey)
    → ((k : SsidKey) (entry : KnownSsidEntry) → test k entry ≡ true → k.ssid ≡ ssid)
    → key_or_find ssid security test networks ≡ some key
    → Names ssid security key
unfolding key_or_find
key_or_find-Names ssid (some security) test networks key sound e =
    let same : record { ssid = ssid; security = security } ≡ key = ground (arith, e) in
    (sym (ap (λ k. k.ssid) same), sym (ap (λ k. k.security) same))
key_or_find-Names ssid none test networks key sound e =
    let (entry, passed) = find_key_passes test networks key e in sound key entry passed

module _ {State : Type 0} (m : Machine State) where
  replace_known-Sets :
      (known : KnownNetwork) (self : WpaSupplicant) (s : State)
      → Sets
          (key_of known)
          known.bssid
          (some known)
          self.known_networks
          (replace_known m (key_of known) known self s).0.known_networks
  unfolding replace_known
  replace_known-Sets known self s j c =
      let key = key_of known in
      let networks = self.known_networks in
      let without = Map.insert key (take_from known.bssid (entry_of key networks)) networks in
      ground (
        arith,
        profile-put_in j key known.bssid c known without,
        profile-take_from j key known.bssid c networks,
      )

  -- What a registration has done, by how its validation ended.
  abbrev pub Registers :
      Result (Error m) (Unit {0})
      → KnownNetwork
      → WpaSupplicant
      → State
      → Outcome m (Unit {0})
      → Type 0
  Registers (err e) known self s after = after ≡ (err e, self, s)
  Registers (ok _) known self s after =
      (after.0 ≡ ok tt)
      × Sets (key_of known) known.bssid (some known) self.known_networks after.1.known_networks

  -- A registration that passes the validation sets just the profile of its SSID, security and address,
  -- to the settings given and, where no password or identity is given, to those that the profile had. One
  -- that does not pass returns the error, and changes nothing.
  pub register_known_network_lem :
      (ssid : List ℕ) (bssid : Option MacAddr) (security : Security)
      (password identity : Option (List ℕ)) (hidden autoconnect : Bool) (self : WpaSupplicant)
      (s : State)
      → let old = profile (record { ssid = ssid; security = security }) bssid self.known_networks in
        let password' = keep_secret password (λ n. n.password) old in
        let identity' = keep_secret identity (λ n. n.identity) old in
        Registers
          (validate m security password' identity')
          (new_profile ssid bssid security password' identity' hidden autoconnect)
          self
          s
          (register_known_network m ssid bssid security password identity hidden autoconnect self s)
  unfolding register_known_network new_profile
  register_known_network_lem ssid bssid security password identity hidden autoconnect self s =
      let old = profile (record { ssid = ssid; security = security }) bssid self.known_networks in
      let password' = keep_secret password (λ n. n.password) old in
      let identity' = keep_secret identity (λ n. n.identity) old in
      let known = new_profile ssid bssid security password' identity' hidden autoconnect in
      elim (Result-cases (validate m security password' identity')) [
        | inl (_, good) ↦ rw (good, register_known_network) (refl, replace_known-Sets known self s)
        | inr (_, bad) ↦ rw (bad, register_known_network) refl
      ]

  holds_ssid :
      (ssid : List ℕ) (bssid : Option MacAddr) (k : SsidKey) (entry : KnownSsidEntry)
      → (k.ssid === ssid && is_some (find_in bssid entry)) ≡ true
      → k.ssid ≡ ssid
  holds_ssid ssid bssid k entry h = ground arith

  prune-Sets :
      (key : SsidKey) (bssid : Option MacAddr) (networks : KnownNetworks)
      → Sets key bssid none networks
          (prune key (Map.insert key (take_from bssid (entry_of key networks)) networks))
  prune-Sets key bssid networks j c =
      let without = Map.insert key (take_from bssid (entry_of key networks)) networks in
      profile-prune j key c without ∙ profile-take_from j key bssid c networks

  remove_at-Sets :
      (ssid : List ℕ) (bssid : Option MacAddr) (key : SsidKey) (self : WpaSupplicant) (s : State)
      → (remove_at m ssid bssid key (entry_of key self.known_networks) self s).0 ≡ ok tt
      → ((n : KnownNetwork) × (profile key bssid self.known_networks ≡ some n))
        × Sets key bssid none self.known_networks
            (remove_at m ssid bssid key (entry_of key self.known_networks) self s).1.known_networks
  unfolding remove_at
  remove_at-Sets ssid bssid key self s h =
      let entry = entry_of key self.known_networks in
      let pruned = prune-Sets key bssid self.known_networks in
      elim (Option-cases (find_in bssid entry)) [
        | inl miss ↦ absurd (ground (arith, h, miss))
        | inr (removed, hit) ↦ elim (Option-cases removed.id) [
          | inl unknown ↦ ((removed, hit), rw (hit, unknown, remove_at) pruned)
          | inr (nwid, known) ↦ elim (Result-cases (remove_network m nwid s).0) [
            | inl (_, good) ↦ ((removed, hit), rw (hit, known, good, remove_at) pruned)
            | inr (_, bad) ↦ absurd (ground (arith, h, hit, known, bad))
          ]
        ]
      ]

  -- A removal that succeeds removes just one profile, which was there, of the SSID, of the address and, if
  -- one is given, of the security.
  pub remove_known_network_lem :
      (ssid : List ℕ) (bssid : Option MacAddr) (security : Option Security) (self : WpaSupplicant)
      (s : State)
      → (remove_known_network m ssid bssid security self s).0 ≡ ok tt
      → (key : SsidKey) × Names ssid security key
        × ((n : KnownNetwork) × (profile key bssid self.known_networks ≡ some n))
        × Sets key bssid none self.known_networks
            (remove_known_network m ssid bssid security self s).1.known_networks
  unfolding remove_known_network entry_of
  remove_known_network_lem ssid bssid security self s h =
      let holds = λ (key : SsidKey) (entry : KnownSsidEntry).
        key.ssid === ssid && is_some (find_in bssid entry) in
      elim (Option-cases (key_or_find ssid security holds self.known_networks)) [
        | inl miss ↦ absurd (ground (arith, h, miss))
        | inr (key, hit) ↦ elim (Option-cases (Map.get key self.known_networks)) [
          | inl lost ↦ absurd (ground (arith, h, hit, lost))
          | inr (entry, at) ↦
              let here : entry_of key self.known_networks ≡ entry = rw (at, entry_of) refl in
              let same : remove_known_network m ssid bssid security self s
                  ≡ remove_at m ssid bssid key (entry_of key self.known_networks) self s =
                rw (hit, at, remove_known_network, entry_of) refl in
              let sound = λ (k : SsidKey) (e : KnownSsidEntry) (p : holds k e ≡ true).
                holds_ssid ssid bssid k e p in
              let named = key_or_find-Names ssid security holds self.known_networks key sound hit in
              let (there, set) =
                remove_at-Sets ssid bssid key self s (sym (ap (λ r. r.0) same) ∙ h) in
              (key, named, there, rw same set)
        ]
      ]

  -- What a connection has done, from a state to its outcome: it has failed and left the profiles alone, or
  -- the profile of the network has the number with which wpa_supplicant has answered ADD_NETWORK, this
  -- number was selected last, and the network is the current one.
  abbrev pub Connects : KnownNetwork → WpaSupplicant → State → Outcome m (Unit {0}) → Type 0
  Connects known self s (err _, self', _) = self' ≡ self
  Connects known self s (ok _, self', s') =
      (nwid : ℤ) × Gives m (unregister_wpa_network m known s) nwid
      × ((t : State) × (select_network m nwid none t ≡ (ok tt, s')))
      × Sets (key_of known) known.bssid (some (record known { id = some nwid; state = current }))
          self.known_networks self'.known_networks

  pub connect_to-Connects :
      (target : Option MacAddr) (known : KnownNetwork) (self : WpaSupplicant) (s : State)
      → Connects known self s (connect_to m target known self s)
  unfolding connect_to
  connect_to-Connects target known self s =
      let before = unregister_wpa_network m known s in
      let added =
        add_and_configure_network m known.ssid target known.security known.password known.identity
          known.hidden before in
      elim (Result-cases added.0) [
        | inr (_, bad) ↦ rw (bad, connect_to) refl
        | inl (nwid, good) ↦ elim (Result-cases (select_network m nwid none added.1).0) [
          | inr (_, bad) ↦ rw (good, bad, connect_to) refl
          | inl (_, chosen) ↦
              let connected = record known { id = some nwid; state = current } in
              let given =
                add_and_configure_network-Gives m known.ssid target known.security known.password
                  known.identity known.hidden before nwid good in
              let selected = ap (λ r. (r, (select_network m nwid none added.1).1)) chosen in
              rw (good, chosen, connect_to)
                (
                  nwid,
                  given,
                  (added.1, selected),
                  λ j c. profile-file_network j c connected self.known_networks,
                )
        ]
      ]

  pub Connects-ok :
      (known : KnownNetwork) (self : WpaSupplicant) (s : State) (after : Outcome m (Unit {0}))
      → Connects known self s after
      → after.0 ≡ ok tt
      → (nwid : ℤ) × Gives m (unregister_wpa_network m known s) nwid
        × ((t : State) × (select_network m nwid none t ≡ (ok tt, after.2)))
        × Sets
            (key_of known)
            known.bssid
            (some (record known { id = some nwid; state = current }))
            self.known_networks
            after.1.known_networks
  Connects-ok known self s (ok _, self', _) c h = c
  Connects-ok known self s (err _, self', _) c h = absurd (cc)
