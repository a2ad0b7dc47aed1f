-- ===== src/Wifi/Control/Links.antt =====
-- network-daemon/src/wifi/wpa_supplicant/mod.rs: the commands that select a network, and the status.
use network_daemon.Prelude.{
  ℕ, Option, none, some, Bool, true, false, List, [], ◌∷◌, if◌then◌else◌, ok, err, ◌==◌,
}
use network_daemon.Prelude.Int.{ℤ, pos, negsuc, print_int, parse_i32}
use network_daemon.Prelude.Search.{codes, strip_prefix, lines}
use network_daemon.Wifi.Status.{SupplicantStatus, parse_status}
use network_daemon.Wifi.Commands.{
  WpaCommand, wpa_ctrl, connect_failed, disconnect_failed, save_config_failed,
}
use network_daemon.Wifi.Control.{Machine, Call, ask, order, set_network_value}

-- The loop of `get_bss_freq`.
unfoldable pub find_freq : List (List ℕ) → Option ℤ
unfolding strip_prefix parse_i32
find_freq [] = none
find_freq (line ∷ more) =
    let rest = find_freq more in
    elim (strip_prefix (codes "freq=") line) [ none ↦ rest | some s ↦ parse_i32 s ]

module _ {State : Type 0} (m : Machine State) where
  -- A frequency hint is given if there is one; whether that succeeds is not asked.
  unfoldable pub hint_freq : ℤ → Option ℤ → State → State
  unfolding set_network_value print_int
  hint_freq nwid none s = s
  hint_freq nwid (some f) s = (set_network_value m nwid (codes "freq_list") (print_int f) s).1

  -- A negative identifier stands for any network.
  unfoldable pub any_if_negative : ℤ → Option ℤ
  any_if_negative (pos n) = some (pos n)
  any_if_negative (negsuc _) = none

  unfoldable pub select_network : ℤ → Option ℤ → Call m (Unit {0})
  unfolding hint_freq order any_if_negative
  select_network nwid freq s =
      order m (λ _. connect_failed) (WpaCommand.select_network (any_if_negative nwid))
        (hint_freq nwid freq s)

  unfoldable pub reconnect : Call m (Unit {0})
  unfolding order
  reconnect = order m (λ _. connect_failed) WpaCommand.reconnect

  unfoldable pub disconnect : Call m (Unit {0})
  unfolding order
  disconnect = order m (λ _. disconnect_failed) WpaCommand.disconnect

  unfoldable pub get_bss_freq : List ℕ → Call m (Option ℤ)
  unfolding ask lines find_freq
  get_bss_freq bssid s =
      let (r, s') = ask m wpa_ctrl (WpaCommand.bss bssid) s in
      elim r [ ok response ↦ (ok (find_freq (lines response)), s') | err e ↦ (err e, s') ]

  -- Whether the frequency is missing or 0.
  unfoldable pub lacks_freq : Option ℤ → Bool
  lacks_freq none = true
  lacks_freq (some (pos n)) = n == 0
  lacks_freq (some (negsuc _)) = false

  -- The frequency that is asked for where the status has none.
  unfoldable pub complete_status :
      SupplicantStatus → Option (List ℕ) → State → SupplicantStatus × State
  unfolding get_bss_freq
  complete_status status none s = (status, s)
  complete_status status (some bssid) s =
      let (r, s') = get_bss_freq bssid s in
      elim r [
        | ok (some freq) ↦ (record status { freq = some freq }, s')
        | ok none ↦ (status, s')
        | err _ ↦ (status, s')
      ]

  unfoldable pub get_status : Call m SupplicantStatus
  unfolding ask parse_status lacks_freq complete_status
  get_status s =
      let (r, s') = ask m wpa_ctrl WpaCommand.status s in
      elim r [
        | err e ↦ (err e, s')
        | ok response ↦
            let status = parse_status m.from_utf8_lossy response in
            let (completed, s'') = complete_status status status.bssid s' in
            if lacks_freq status.freq then (ok completed, s'') else (ok status, s')
      ]

  unfoldable pub save_config : Call m (Unit {0})
  unfolding order
  save_config = order m (λ _. save_config_failed) WpaCommand.save_config

  unfoldable pub reconfigure : Call m (Unit {0})
  unfolding order
  reconfigure = order m wpa_ctrl WpaCommand.reconfigure
