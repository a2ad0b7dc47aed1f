-- ===== src/Wifi/Supplicant/Kept.antt =====
-- What the answers of network-daemon/src/wifi/wpa_supplicant/mod.rs leave of the state.
use network_daemon.Prelude.{◌≡◌, refl, inl, inr, Bool-cases, Result, ok, err, Result-cases, arith}
use network_daemon.Wifi.Status.{SupplicantStatus}
use network_daemon.Wifi.Events.{WpaEvent}
use network_daemon.Wifi.Actions.{WiFiManagerResponse}
use network_daemon.Wifi.Control.{Machine, Error}
use network_daemon.Wifi.Supplicant.{WpaSupplicant}
use network_daemon.Wifi.Supplicant.Registry.{Outcome}
use network_daemon.Wifi.Supplicant.Messages.{
  answer, succeed, answer_status, handle_wpa_event, handle_subscribe, is_scan_results,
  changes_status,
}

module _ {State : Type 0} (m : Machine State) where
  pub answer_keeps :
      {A : Type 0} (r : Result (Error m) A × State) (f : A → WiFiManagerResponse)
      (self : WpaSupplicant)
      → (answer m r f self).1 ≡ self
  unfolding answer
  answer_keeps (ok a, s) f self = refl
  answer_keeps (err e, s) f self = refl

  pub succeed_keeps : (r : Outcome m (Unit {0})) → (succeed m r).1 ≡ r.1
  unfolding succeed
  succeed_keeps (ok a, self, s) = refl
  succeed_keeps (err e, self, s) = refl

  pub answer_status_keeps :
      (r : Result (Error m) SupplicantStatus × State) (self : WpaSupplicant)
      → (answer_status m r self).1.known_networks ≡ self.known_networks
  unfolding answer_status
  answer_status_keeps (err e, s) self = refl
  answer_status_keeps (ok a, s) self = elim (Bool-cases self.status_init) [
    | inl told ↦ ground (arith, told)
    | inr new ↦ ground (arith, new)
  ]

  pub handle_wpa_event_keeps :
      (event : WpaEvent) (self : WpaSupplicant) (s : State)
      → (handle_wpa_event m event self s).1.known_networks ≡ self.known_networks
  unfolding handle_wpa_event
  handle_wpa_event_keeps event self s = elim (Bool-cases (is_scan_results m event)) [
    | inl e ↦ rw (e, handle_wpa_event) refl
    | inr e ↦ elim (Bool-cases (changes_status m event)) [
      | inl c ↦ rw (e, c, handle_wpa_event) refl
      | inr c ↦ rw (e, c, handle_wpa_event) refl
    ]
  ]

  pub handle_subscribe_keeps :
      (self : WpaSupplicant) (s : State) → (handle_subscribe m self s).1 ≡ self
  unfolding handle_subscribe
  handle_subscribe_keeps self s = elim (Result-cases (m.ask_subscribe s).0) [
    | inl (_, e) ↦ rw (e, handle_subscribe) refl
    | inr (_, e) ↦ rw (e, handle_subscribe) refl
  ]
