-- ===== src/Wifi/Supplicant/Hidden.antt =====
-- No answer of network-daemon/src/wifi/wpa_supplicant/mod.rs has a password.
use network_daemon.Prelude.{
  ◌≡◌, refl, ap, sym, ◌∙◌, ◌=?◌, inl, inr, Option, none, some, Bool-cases, List, [], ◌∷◌, ◌++◌, map,
  In, Result, ok, err, Result-cases, Option-cases, arith,
}
use network_daemon.Prelude.Map
use network_daemon.Mac.{MacAddr}
use network_daemon.Wifi.Network.{KnownNetwork}
use network_daemon.Wifi.Status.{SupplicantStatus}
use network_daemon.Wifi.Events.{WpaEvent}
use network_daemon.Wifi.Actions.{WiFiManagerAction, WiFiManagerResponse, success}
use network_daemon.Wifi.Control
use network_daemon.Wifi.Control.Links
use network_daemon.Wifi.Control.{Machine, Error}
use network_daemon.Wifi.Supplicant.{
  SsidKey, SsidKey_key, MacAddr_key, KnownSsidEntry, KnownNetworks, WpaSupplicant, entry_of,
  find_in, networks_of, collect_networks, get_known_networks,
}
use network_daemon.Wifi.Supplicant.Registry.{Outcome, register_known_network, remove_known_network}
use network_daemon.Wifi.Supplicant.Choice.{connect_known}
use network_daemon.Wifi.Supplicant.Profiles.{profile}
use network_daemon.Wifi.Supplicant.Messages.{
  without_password, answer, succeed, answer_status, handle_wpa_event, handle_subscribe,
  is_scan_results, changes_status, handle,
}

abbrev pub AllHidden : List KnownNetwork → Type 0
AllHidden [] = Unit
AllHidden (n ∷ l) = (n.password ≡ none) × AllHidden l

map-AllHidden : (l : List KnownNetwork) → AllHidden (map without_password l)
unfolding without_password
map-AllHidden [] = tt
map-AllHidden (n ∷ l) = (refl, map-AllHidden l)

-- What an answer tells of the known networks.
abbrev pub Tells : WiFiManagerResponse → Type 0
Tells (WiFiManagerResponse.known_networks l) = AllHidden l
Tells _ = Unit

In-append : (n : KnownNetwork) (a b : List KnownNetwork) → In n a → In n (a ++ b)
In-append n [] b h = elim h [ ]
In-append n (x ∷ a) b (inl e) = inl e
In-append n (x ∷ a) b (inr h) = inr (In-append n a b h)

In-append_right : (n : KnownNetwork) (a b : List KnownNetwork) → In n b → In n (a ++ b)
In-append_right n [] b h = h
In-append_right n (x ∷ a) b h = inr (In-append_right n a b h)

In-values :
    (mac : MacAddr) (n : KnownNetwork) (l : List (MacAddr × KnownNetwork))
    → Map.get mac l ≡ some n
    → In n (Map.values l)
unfolding Map.get Map.values
In-values mac n [] e = absurd (cc)
In-values mac n ((k, x) ∷ l) e = elim (k =? mac) [
  | yes p ↦ inl (ground (arith, e, p))
  | no d ↦ inr (In-values mac n l (ground (arith, e, d)))
]

In-networks_of :
    (b : Option MacAddr) (n : KnownNetwork) (entry : KnownSsidEntry)
    → find_in b entry ≡ some n
    → In n (networks_of entry)
unfolding find_in networks_of
In-networks_of none n entry e = rw e (inl refl)
In-networks_of (some mac) n entry e = elim (Option-cases entry.no_bssid) [
  | inl miss ↦ rw (miss, networks_of) (In-values mac n entry.by_bssid e)
  | inr (x, hit) ↦ rw (hit, networks_of) (inr (In-values mac n entry.by_bssid e))
]

-- Every profile is listed.
In-collect_networks :
    (key : SsidKey) (b : Option MacAddr) (n : KnownNetwork) (networks : KnownNetworks)
    → profile key b networks ≡ some n
    → In n (collect_networks networks)
unfolding collect_networks entry_of find_in
In-collect_networks key none n [] e = absurd (cc)
In-collect_networks key (some mac) n [] e = absurd (cc)
In-collect_networks key b n ((k, entry) ∷ more) e = elim (k =? key) [
  | yes p ↦
      let own : entry_of key ((k, entry) ∷ more) ≡ entry = ground (arith, p) in
      In-append n (networks_of entry) (collect_networks more)
        (In-networks_of b n entry (sym (ap (find_in b) own) ∙ e))
  | no d ↦
      let other : entry_of key ((k, entry) ∷ more) ≡ entry_of key more = ground (arith, d) in
      In-append_right n (networks_of entry) (collect_networks more)
        (In-collect_networks key b n more (sym (ap (find_in b) other) ∙ e))
]

In-map :
    (n : KnownNetwork) (l : List KnownNetwork)
    → In n l
    → In (without_password n) (map without_password l)
In-map n [] h = elim h [ ]
In-map n (x ∷ l) (inl e) = inl (ap without_password e)
In-map n (x ∷ l) (inr h) = inr (In-map n l h)

module _ {State : Type 0} (m : Machine State) where
  -- What an outcome tells of the known networks.
  abbrev pub Reveals : Result (Error m) WiFiManagerResponse → Type 0
  Reveals (ok response) = Tells response
  Reveals (err _) = Unit

  answer-Reveals :
      {A : Type 0} (r : Result (Error m) A × State) (self : WpaSupplicant)
      → Reveals (answer m r (λ _. success) self).0
  unfolding answer
  answer-Reveals (ok _, s) self = tt
  answer-Reveals (err _, s) self = tt

  succeed-Reveals : (r : Outcome m (Unit {0})) → Reveals (succeed m r).0
  unfolding succeed
  succeed-Reveals (ok _, self, s) = tt
  succeed-Reveals (err _, self, s) = tt

  answer_status-Reveals :
      (r : Result (Error m) SupplicantStatus × State) (self : WpaSupplicant)
      → Reveals (answer_status m r self).0
  unfolding answer_status
  answer_status-Reveals (err e, s) self = tt
  answer_status-Reveals (ok status, s) self = elim (Bool-cases self.status_init) [
    | inl told ↦ rw (told, answer_status) tt
    | inr new ↦ rw (new, answer_status) tt
  ]

  handle_wpa_event-Reveals :
      (event : WpaEvent) (self : WpaSupplicant) (s : State)
      → Reveals (handle_wpa_event m event self s).0
  unfolding handle_wpa_event
  handle_wpa_event-Reveals event self s = elim (Bool-cases (is_scan_results m event)) [
    | inl e ↦ rw (e, handle_wpa_event) tt
    | inr e ↦ elim (Bool-cases (changes_status m event)) [
      | inl c ↦ rw (e, c, handle_wpa_event) tt
      | inr c ↦ rw (e, c, handle_wpa_event) tt
    ]
  ]

  handle_subscribe-Reveals :
      (self : WpaSupplicant) (s : State) → Reveals (handle_subscribe m self s).0
  unfolding handle_subscribe
  handle_subscribe-Reveals self s = elim (Result-cases (m.ask_subscribe s).0) [
    | inl (_, e) ↦ rw (e, handle_subscribe) tt
    | inr (_, e) ↦ rw (e, handle_subscribe) tt
  ]

  hides :
      (action : WiFiManagerAction) (self : WpaSupplicant) (s : State)
      → Reveals (handle m action self s).0
  unfolding handle
  hides WiFiManagerAction.scan self s = answer-Reveals (Control.scan m s) self
  hides WiFiManagerAction.scan_results self s = tt
  hides WiFiManagerAction.known_networks self s = map-AllHidden (get_known_networks self)
  hides WiFiManagerAction.status self s = answer_status-Reveals (Links.get_status m s) self
  hides (WiFiManagerAction.add_network ssid bssid security password identity hidden autoconnect)
        self s =
      succeed-Reveals
        (register_known_network m ssid bssid security password identity hidden autoconnect self s)
  hides (WiFiManagerAction.remove_network ssid bssid security) self s =
      succeed-Reveals (remove_known_network m ssid bssid security self s)
  hides (WiFiManagerAction.connect ssid bssid security) self s =
      succeed-Reveals (connect_known m ssid security bssid self s)
  hides WiFiManagerAction.disconnect self s = answer-Reveals (Links.disconnect m s) self
  hides WiFiManagerAction.reconnect self s = answer-Reveals (Links.reconnect m s) self
  hides WiFiManagerAction.subscribe_events self s = handle_subscribe-Reveals self s
  hides (WiFiManagerAction.load_networks networks) self s = tt
  hides (WiFiManagerAction.wpa_event event) self s = handle_wpa_event-Reveals event self s

  -- No action is answered by a known network with its password; and the answer to KnownNetworks lists
  -- every profile, without its password.
  pub handle-Reveals :
      (action : WiFiManagerAction) (self : WpaSupplicant) (s : State)
      → Reveals (handle m action self s).0
        × ((l : List KnownNetwork) × ((handle m WiFiManagerAction.known_networks self s).0
              ≡ ok (WiFiManagerResponse.known_networks l))
            × ((key : SsidKey) (b : Option MacAddr) (n : KnownNetwork)
                → profile key b self.known_networks ≡ some n
                → In (without_password n) l))
  unfolding handle get_known_networks
  handle-Reveals action self s = (
    hides action self s,
    (
      map without_password (collect_networks self.known_networks),
      refl,
      λ key b n e.
          In-map n (collect_networks self.known_networks)
            (In-collect_networks key b n self.known_networks e),
    ),
  )
