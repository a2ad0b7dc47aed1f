-- ===== src/Wifi/Supplicant/Filed.antt =====
-- The known networks of network-daemon/src/wifi/wpa_supplicant/mod.rs stay filed under their own SSID,
-- security and address.
use mathlib.Core.Path.{subst}
use network_daemon.Prelude.{
  ℕ, ◌≡◌, refl, ap, sym, ◌∙◌, inl, inr, Option, none, some, Bool, List, [], ◌∷◌, Result-cases,
  Option-cases, Bool-cases, ◌&&◌, ◌=?◌, ◌===◌, arith,
}
use network_daemon.Prelude.Map
use network_daemon.Mac.{MacAddr}
use network_daemon.Wifi.Security.{Security}
use network_daemon.Wifi.Network.{KnownNetwork, current}
use network_daemon.Wifi.Actions.{WiFiManagerAction}
use network_daemon.Wifi.Control.{Machine, Error, remove_network, add_and_configure_network}
use network_daemon.Wifi.Control.Links.{select_network}
use network_daemon.Wifi.Supplicant.{
  SsidKey, SsidKey_key, MacAddr_key, Text_key, KnownSsidEntry, KnownNetworks, WpaSupplicant,
  entry_of, find_in, take_from, put_in, file_network, file_all, load_known_networks,
}
use network_daemon.Wifi.Supplicant.Registry.{
  prune, validate, new_profile, keep_secret, replace_known, unregister_wpa_network,
  register_known_network, remove_at, key_or_find, remove_known_network, is_some,
}
use network_daemon.Wifi.Supplicant.Choice.{connect_to, connect_known, select_known_candidate}
use network_daemon.Wifi.Supplicant.Profiles.{
  profile, key_of, same_bssid, same_bssid→eq, profile-put_in, profile-take_from, profile-prune,
}
use network_daemon.Wifi.Supplicant.Kept.{
  answer_keeps, succeed_keeps, answer_status_keeps, handle_wpa_event_keeps, handle_subscribe_keeps,
}
use network_daemon.Wifi.Supplicant.Messages.{handle}
use network_daemon.Wifi.Control
use network_daemon.Wifi.Control.Links

-- Every profile is found by the SSID, the security and the address of its network.
abbrev pub IsFiled : KnownNetworks → Type 0
IsFiled networks =
    (key : SsidKey) (b : Option MacAddr) (n : KnownNetwork)
    → profile key b networks ≡ some n
    → (key_of n ≡ key) × (n.bssid ≡ b)

pub put_in-IsFiled :
    (n : KnownNetwork) (networks : KnownNetworks)
    → IsFiled networks
    → IsFiled (Map.insert (key_of n) (put_in n.bssid n (entry_of (key_of n) networks)) networks)
put_in-IsFiled n networks h j c k e =
    let law = profile-put_in j (key_of n) n.bssid c n networks in
    elim (key_of n =? j) [
      | no d ↦ h j c k (ground (arith, law, e, d))
      | yes same ↦ elim (Bool-cases (same_bssid n.bssid c)) [
        | inr other ↦ h j c k (ground (arith, law, e, same, other))
        | inl own ↦
            let found : n ≡ k = ground (arith, law, e, same, own) in
            rw (← found) (same, same_bssid→eq n.bssid c own)
      ]
    ]

pub take_from-IsFiled :
    (key : SsidKey) (b : Option MacAddr) (networks : KnownNetworks)
    → IsFiled networks
    → IsFiled (Map.insert key (take_from b (entry_of key networks)) networks)
take_from-IsFiled key b networks h j c k e =
    h j c k (ground (arith, profile-take_from j key b c networks, e))

pub prune-IsFiled :
    (key : SsidKey) (networks : KnownNetworks) → IsFiled networks → IsFiled (prune key networks)
prune-IsFiled key networks h j c k e = h j c k (sym (profile-prune j key c networks) ∙ e)

pub file_network-IsFiled :
    (n : KnownNetwork) (networks : KnownNetworks)
    → IsFiled networks
    → IsFiled (file_network n networks)
unfolding file_network
file_network-IsFiled n networks h = put_in-IsFiled n networks h

pub file_all-IsFiled :
    (l : List KnownNetwork) (networks : KnownNetworks)
    → IsFiled networks
    → IsFiled (file_all l networks)
unfolding file_all
file_all-IsFiled [] networks h = h
file_all-IsFiled (n ∷ l) networks h =
    file_all-IsFiled l (file_network n networks) (file_network-IsFiled n networks h)

pub none-IsFiled : IsFiled []
unfolding entry_of find_in
none-IsFiled key none n e = cc
none-IsFiled key (some mac) n e = cc

module _ {State : Type 0} (m : Machine State) where
  replace_known-IsFiled :
      (known : KnownNetwork) (self : WpaSupplicant) (s : State)
      → IsFiled self.known_networks
      → IsFiled (replace_known m (key_of known) known self s).0.known_networks
  unfolding replace_known
  replace_known-IsFiled known self s h =
      let key = key_of known in
      let without =
        Map.insert key (take_from known.bssid (entry_of key self.known_networks))
          self.known_networks in
      put_in-IsFiled known without (take_from-IsFiled key known.bssid self.known_networks h)

  register_known_network-IsFiled :
      (ssid : List ℕ) (bssid : Option MacAddr) (security : Security)
      (password identity : Option (List ℕ)) (hidden autoconnect : Bool) (self : WpaSupplicant)
      (s : State)
      → IsFiled self.known_networks
      → IsFiled
          (register_known_network m ssid bssid security password identity hidden autoconnect self
            s).1.known_networks
  unfolding register_known_network new_profile
  register_known_network-IsFiled ssid bssid security password identity hidden autoconnect self s h =
      let key : SsidKey = record { ssid = ssid; security = security } in
      let previous = find_in bssid (entry_of key self.known_networks) in
      let password' = keep_secret password (λ n. n.password) previous in
      let identity' = keep_secret identity (λ n. n.identity) previous in
      let known = new_profile ssid bssid security password' identity' hidden autoconnect in
      elim (Result-cases (validate m security password' identity')) [
        | inl (_, good) ↦ rw (good, register_known_network) (replace_known-IsFiled known self s h)
        | inr (_, bad) ↦ rw (bad, register_known_network) h
      ]

  remove_at-IsFiled :
      (ssid : List ℕ) (bssid : Option MacAddr) (key : SsidKey) (entry : KnownSsidEntry)
      (self : WpaSupplicant) (s : State)
      → entry_of key self.known_networks ≡ entry
      → IsFiled self.known_networks
      → IsFiled (remove_at m ssid bssid key entry self s).1.known_networks
  unfolding remove_at
  remove_at-IsFiled ssid bssid key entry self s at h =
      let taken : IsFiled (Map.insert key (take_from bssid entry) self.known_networks) =
        rw (← at) (take_from-IsFiled key bssid self.known_networks h) in
      let pruned =
        prune-IsFiled key (Map.insert key (take_from bssid entry) self.known_networks) taken in
      elim (Option-cases (find_in bssid entry)) [
        | inl miss ↦ rw (miss, remove_at) h
        | inr (removed, hit) ↦ elim (Option-cases removed.id) [
          | inl unknown ↦ rw (hit, unknown, remove_at) pruned
          | inr (nwid, known) ↦ elim (Result-cases (remove_network m nwid s).0) [
            | inl (_, good) ↦ rw (hit, known, good, remove_at) pruned
            | inr (_, bad) ↦ rw (hit, known, bad, remove_at) taken
          ]
        ]
      ]

  remove_known_network-IsFiled :
      (ssid : List ℕ) (bssid : Option MacAddr) (security : Option Security) (self : WpaSupplicant)
      (s : State)
      → IsFiled self.known_networks
      → IsFiled (remove_known_network m ssid bssid security self s).1.known_networks
  unfolding remove_known_network entry_of
  remove_known_network-IsFiled ssid bssid security self s h =
      let holds = λ (key : SsidKey) (entry : KnownSsidEntry).
        key.ssid === ssid && is_some (find_in bssid entry) in
      elim (Option-cases (key_or_find ssid security holds self.known_networks)) [
        | inl miss ↦ rw (miss, remove_known_network) h
        | inr (key, hit) ↦ elim (Option-cases (Map.get key self.known_networks)) [
          | inl lost ↦ rw (hit, lost, remove_known_network) h
          | inr (entry, at) ↦
              let here : entry_of key self.known_networks ≡ entry = rw (at, entry_of) refl in
              rw (hit, at, remove_known_network)
                (remove_at-IsFiled ssid bssid key entry self s here h)
        ]
      ]

  connect_to-IsFiled :
      (target : Option MacAddr) (known : KnownNetwork) (self : WpaSupplicant) (s : State)
      → IsFiled self.known_networks
      → IsFiled (connect_to m target known self s).1.known_networks
  unfolding connect_to
  connect_to-IsFiled target known self s h =
      let added =
        add_and_configure_network m known.ssid target known.security known.password known.identity
          known.hidden (unregister_wpa_network m known s) in
      elim (Result-cases added.0) [
        | inr (_, bad) ↦ rw (bad, connect_to) h
        | inl (nwid, good) ↦ elim (Result-cases (select_network m nwid none added.1).0) [
          | inr (_, bad) ↦ rw (good, bad, connect_to) h
          | inl (_, chosen) ↦
              rw (good, chosen, connect_to)
                (file_network-IsFiled (record known { id = some nwid; state = current })
                  self.known_networks h)
        ]
      ]

  connect_known-IsFiled :
      (ssid : List ℕ) (security : Option Security) (bssid : Option MacAddr) (self : WpaSupplicant)
      (s : State)
      → IsFiled self.known_networks
      → IsFiled (connect_known m ssid security bssid self s).1.known_networks
  unfolding connect_known
  connect_known-IsFiled ssid security bssid self s h =
      elim (Result-cases (select_known_candidate m ssid security bssid self)) [
        | inr (_, bad) ↦ rw (bad, connect_known) h
        | inl ((target, known), good) ↦
            rw (good, connect_known) (connect_to-IsFiled target known self s h)
      ]

  -- Every action keeps the known networks filed under their own SSID, security and address, whatever
  -- wpa_supplicant answers.
  pub handle-IsFiled :
      (action : WiFiManagerAction) (self : WpaSupplicant) (s : State)
      → IsFiled self.known_networks
      → IsFiled (handle m action self s).1.known_networks
  unfolding handle load_known_networks
  handle-IsFiled WiFiManagerAction.scan self s h =
      subst IsFiled (sym (ap (λ x. x.known_networks) (answer_keeps m (Control.scan m s) _ self))) h
  handle-IsFiled WiFiManagerAction.scan_results self s h = h
  handle-IsFiled WiFiManagerAction.known_networks self s h = h
  handle-IsFiled WiFiManagerAction.status self s h =
      subst IsFiled (sym (answer_status_keeps m (Links.get_status m s) self)) h
  handle-IsFiled
        (WiFiManagerAction.add_network ssid bssid security password identity hidden autoconnect)
        self s h =
      subst IsFiled
        (sym (
          ap (λ x. x.known_networks)
            (succeed_keeps m (
              register_known_network m ssid bssid security password identity hidden autoconnect self
                s))))
        (register_known_network-IsFiled ssid bssid security password identity hidden autoconnect
          self s h)
  handle-IsFiled (WiFiManagerAction.remove_network ssid bssid security) self s h =
      subst IsFiled
        (sym (
          ap (λ x. x.known_networks)
            (succeed_keeps m (remove_known_network m ssid bssid security self s))))
        (remove_known_network-IsFiled ssid bssid security self s h)
  handle-IsFiled (WiFiManagerAction.connect ssid bssid security) self s h =
      subst IsFiled
        (sym (
          ap (λ x. x.known_networks)
            (succeed_keeps m (connect_known m ssid security bssid self s))))
        (connect_known-IsFiled ssid security bssid self s h)
  handle-IsFiled WiFiManagerAction.disconnect self s h =
      subst IsFiled
        (sym (ap (λ x. x.known_networks) (answer_keeps m (Links.disconnect m s) _ self))) h
  handle-IsFiled WiFiManagerAction.reconnect self s h =
      subst IsFiled (sym (ap (λ x. x.known_networks) (answer_keeps m (Links.reconnect m s) _ self)))
        h
  handle-IsFiled WiFiManagerAction.subscribe_events self s h =
      subst IsFiled (sym (ap (λ x. x.known_networks) (handle_subscribe_keeps m self s))) h
  handle-IsFiled (WiFiManagerAction.load_networks networks) self s h =
      file_all-IsFiled networks [] none-IsFiled
  handle-IsFiled (WiFiManagerAction.wpa_event event) self s h =
      subst IsFiled (sym (handle_wpa_event_keeps m event self s)) h
