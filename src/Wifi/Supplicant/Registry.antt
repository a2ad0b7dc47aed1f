-- ===== src/Wifi/Supplicant/Registry.antt =====
-- network-daemon/src/wifi/wpa_supplicant/mod.rs: registering and removing a known network.
use network_daemon.Prelude.{
  ℕ, Option, none, some, Bool, true, false, ◌&&◌, List, [], ◌∷◌, if◌then◌else◌, Result, ok, err,
  ◌===◌,
}
use network_daemon.Prelude.Map
use network_daemon.Prelude.Set
use network_daemon.Prelude.Int.{pos}
use network_daemon.Prelude.Search.{codes}
use network_daemon.Mac.{MacAddr}
use network_daemon.Wifi.Security.{Security, Security_key, opened, eap, psk, unknown}
use network_daemon.Wifi.Network.{KnownNetwork, enabled, disabled}
use network_daemon.Wifi.Commands.{known_network_not_found, invalid_password_length, not_supported}
use network_daemon.Wifi.Control.{Machine, Error, psk_min_len, psk_max_len, fits, remove_network}
use network_daemon.Wifi.Supplicant.{
  MacAddr_key, Text_key, SsidKey, SsidKey_key, KnownSsidEntry, KnownNetworks, WpaSupplicant,
  entry_of, find_in, take_from, put_in,
}

-- `Option::or_else`, for a secret of a network that may be there.
unfoldable pub keep_secret :
    Option (List ℕ) → (KnownNetwork → Option (List ℕ)) → Option KnownNetwork → Option (List ℕ)
keep_secret (some new) secret previous = some new
keep_secret none secret none = none
keep_secret none secret (some network) = secret network

-- The network that is registered.
unfoldable pub new_profile :
    List ℕ
    → Option MacAddr
    → Security
    → Option (List ℕ)
    → Option (List ℕ)
    → Bool
    → Bool
    → KnownNetwork
new_profile ssid bssid security password identity hidden autoconnect = record {
  id = none;
  priority = pos 0;
  hidden = hidden;
  security = security;
  state = if autoconnect then enabled else disabled;
  ssid = ssid;
  bssid = bssid;
  password = password;
  identity = identity;
  autoconnect = autoconnect;
}

-- The key of the first entry that passes a test.
unfoldable pub find_key : (SsidKey → KnownSsidEntry → Bool) → KnownNetworks → Option SsidKey
find_key test [] = none
find_key test ((key, entry) ∷ more) = if test key entry then some key else find_key test more

unfoldable pub is_some {ℓ} : {A : Type ℓ} → Option A → Bool
is_some none = false
is_some (some _) = true

-- The key by its security, or the first that passes a test.
unfoldable pub key_or_find :
    List ℕ → Option Security → (SsidKey → KnownSsidEntry → Bool) → KnownNetworks → Option SsidKey
unfolding find_key
key_or_find ssid (some security) test networks = some (record { ssid = ssid; security = security })
key_or_find ssid none test networks = find_key test networks

unfoldable pub is_empty_entry : KnownSsidEntry → Bool
unfolding is_some Set.is_empty
is_empty_entry entry = if is_some entry.no_bssid then false else Set.is_empty entry.by_bssid

-- An entry that has become empty is dropped.
unfoldable pub prune : SsidKey → KnownNetworks → KnownNetworks
unfolding Map.get Map.remove is_empty_entry
prune key networks = elim (Map.get key networks) [
  | none ↦ networks
  | some entry ↦ if is_empty_entry entry then Map.remove key networks else networks
]

module _ {State : Type 0} (m : Machine State) where
  -- A method, which changes the state and the machine.
  abbrev pub Outcome : Type 0 → Type 0
  Outcome A = Result (Error m) A × WpaSupplicant × State

  unfoldable pub unregister_wpa_network : KnownNetwork → State → State
  unfolding remove_network
  unregister_wpa_network known s = elim known.id [
    | none ↦ s
    | some nwid ↦ (remove_network m nwid s).1
  ]

  -- The early validation of `register_known_network`.
  unfoldable pub validate :
      Security → Option (List ℕ) → Option (List ℕ) → Result (Error m) (Unit {0})
  validate psk none identity = err (invalid_password_length psk_min_len psk_max_len)
  validate psk (some password) identity =
      if fits m password then ok tt else err (invalid_password_length psk_min_len psk_max_len)
  validate eap password none =
      err (not_supported (codes "EAP requires identity during registration"))
  validate eap password (some id) = ok tt
  validate opened password identity = ok tt
  validate unknown password identity = ok tt

  -- A validated network takes the place of the one before it, which is removed from wpa_supplicant.
  unfoldable pub replace_known :
      SsidKey → KnownNetwork → WpaSupplicant → State → WpaSupplicant × State
  unfolding entry_of find_in take_from put_in unregister_wpa_network Map.insert
  replace_known key known self s =
      let entry = entry_of key self.known_networks in
      let without = Map.insert key (take_from known.bssid entry) self.known_networks in
      let with = Map.insert key (put_in known.bssid known (entry_of key without)) without in
      let s' : State = elim (find_in known.bssid entry) [
        | none ↦ s
        | some prev ↦ unregister_wpa_network prev s
      ] in
      (record self { known_networks = with }, s')

  unfoldable pub register_known_network :
      List ℕ
      → Option MacAddr
      → Security
      → Option (List ℕ)
      → Option (List ℕ)
      → Bool
      → Bool
      → WpaSupplicant
      → State
      → Outcome (Unit {0})
  unfolding entry_of find_in keep_secret new_profile validate replace_known
  register_known_network ssid bssid security password identity hidden autoconnect self s =
      let key : SsidKey = record { ssid = ssid; security = security } in
      let previous = find_in bssid (entry_of key self.known_networks) in
      let password' = keep_secret password (λ n. n.password) previous in
      let identity' = keep_secret identity (λ n. n.identity) previous in
      let known = new_profile ssid bssid security password' identity' hidden autoconnect in
      let (self', s') = replace_known key known self s in
      elim (validate security password' identity') [
        | err e ↦ (err e, self, s)
        | ok _ ↦ (ok tt, self', s')
      ]

  -- The removal, once the key is known.
  unfoldable pub remove_at :
      List ℕ
      → Option MacAddr
      → SsidKey
      → KnownSsidEntry
      → WpaSupplicant
      → State
      → Outcome (Unit {0})
  unfolding find_in take_from Map.insert prune remove_network
  remove_at ssid bssid key entry self s =
      let without = Map.insert key (take_from bssid entry) self.known_networks in
      let pruned = record self { known_networks = prune key without } in
      elim (find_in bssid entry) [
        | none ↦ (err (known_network_not_found ssid bssid), self, s)
        | some removed ↦ elim removed.id [
          | none ↦ (ok tt, pruned, s)
          | some nwid ↦
              let (r, s') = remove_network m nwid s in
              elim r [
                | err e ↦ (err e, record self { known_networks = without }, s')
                | ok _ ↦ (ok tt, pruned, s')
              ]
        ]
      ]

  unfoldable pub remove_known_network :
      List ℕ → Option MacAddr → Option Security → WpaSupplicant → State → Outcome (Unit {0})
  unfolding key_or_find find_in is_some Map.get remove_at
  remove_known_network ssid bssid security self s =
      let holds = λ (key : SsidKey) (entry : KnownSsidEntry).
        key.ssid === ssid && is_some (find_in bssid entry) in
      elim (key_or_find ssid security holds self.known_networks) [
        | none ↦ (err (known_network_not_found ssid bssid), self, s)
        | some key ↦ elim (Map.get key self.known_networks) [
          | none ↦ (err (known_network_not_found ssid bssid), self, s)
          | some entry ↦ remove_at ssid bssid key entry self s
        ]
      ]
