-- ===== src/Wifi/Status.antt =====
-- libnetwork-daemon/src/wifi/status.rs: the answer to STATUS.
use network_daemon.Prelude.{
  ℕ, Option, none, some, Bool, true, false, ◌||◌, List, [], ◌∷◌, if◌then◌else◌, ltb,
}
use network_daemon.Prelude.Int.{ℤ, pos, negsuc, parse_i32}
use network_daemon.Prelude.Search.{codes, same_text, split_once, lines}
use network_daemon.Ssid.{unescape_ssid}
use network_daemon.Wifi.Security.{Security, eap, from_key_mgmt}

pub data WpaState : Type 0 where
  completed disconnected scanning associating associated authenticating : WpaState
  four_way_handshake group_handshake inactive interface_disabled unknown : WpaState

-- The texts of the states.
abbrev pub states : List (List ℕ × WpaState)
states =
    (codes "COMPLETED", completed)
    ∷ (codes "DISCONNECTED", disconnected)
    ∷ (codes "SCANNING", scanning)
    ∷ (codes "ASSOCIATING", associating)
    ∷ (codes "ASSOCIATED", associated)
    ∷ (codes "AUTHENTICATING", authenticating)
    ∷ (codes "4WAY_HANDSHAKE", four_way_handshake)
    ∷ (codes "GROUP_HANDSHAKE", group_handshake)
    ∷ (codes "INACTIVE", inactive)
    ∷ (codes "INTERFACE_DISABLED", interface_disabled)
    ∷ []

unfoldable pub state_in : List (List ℕ × WpaState) → List ℕ → Option WpaState
unfolding same_text
state_in [] s = none
state_in ((name, state) ∷ rest) s = if same_text name s then some state else state_in rest s

-- `WpaState::from_str`.
unfoldable pub state_from_str : List ℕ → Option WpaState
unfolding state_in
state_from_str s = state_in states s

pub record SupplicantStatus : Type 0 where
  pub freq : Option ℤ
  pub state : Option WpaState
  pub bssid : Option (List ℕ)
  pub ssid : Option (List ℕ)
  pub ip_address : Option (List ℕ)
  pub security : Option Security
  pub id : Option ℤ
  pub mode : Option (List ℕ)
  pub pairwise_cipher : Option (List ℕ)
  pub group_cipher : Option (List ℕ)
  pub eap_identity : Option (List ℕ)

abbrev pub no_status : SupplicantStatus
no_status = record {
  freq = none;
  state = none;
  bssid = none;
  ssid = none;
  ip_address = none;
  security = none;
  id = none;
  mode = none;
  pairwise_cipher = none;
  group_cipher = none;
  eap_identity = none;
}

module _ (from_utf8_lossy : List ℕ → List ℕ) where
  -- The `match` on the key of a line.
  unfoldable pub set_status : List ℕ → List ℕ → SupplicantStatus → SupplicantStatus
  unfolding same_text parse_i32 unescape_ssid from_key_mgmt state_from_str
  set_status key value status =
      if same_text key (codes "bssid")
      then record status { bssid = some value }
      else if same_text key (codes "freq")
      then record status { freq = parse_i32 value }
      else if same_text key (codes "ssid")
      then record status { ssid = some (unescape_ssid from_utf8_lossy value) }
      else if same_text key (codes "id")
      then record status { id = parse_i32 value }
      else if same_text key (codes "mode")
      then record status { mode = some value }
      else if same_text key (codes "pairwise_cipher")
      then record status { pairwise_cipher = some value }
      else if same_text key (codes "group_cipher")
      then record status { group_cipher = some value }
      else if same_text key (codes "key_mgmt")
      then record status { security = some (from_key_mgmt value) }
      else if same_text key (codes "wpa_state")
      then record status {
        state = elim (state_from_str value) [ none ↦ some unknown | some s ↦ some s ];
      }
      else if same_text key (codes "ip_address")
      then record status { ip_address = some value }
      else if same_text key (codes "eap_session_id") || same_text key (codes "eap_method")
      then record status { security = elim status.security [ none ↦ some eap | some s ↦ some s ] }
      else if same_text key (codes "identity")
      then record status { eap_identity = some value }
      else status

  unfoldable pub parse_lines : List (List ℕ) → SupplicantStatus → SupplicantStatus
  unfolding split_once set_status
  parse_lines [] status = status
  parse_lines (line ∷ rest) status = parse_lines rest (elim (split_once b'=' line) [
    | none ↦ status
    | some (key, value) ↦ set_status key value status
  ])

  -- `SupplicantStatus::parse`.
  unfoldable pub parse_status : List ℕ → SupplicantStatus
  unfolding lines parse_lines
  parse_status response = parse_lines (lines response) no_status

unfoldable pub is_connected : SupplicantStatus → Bool
is_connected self = elim self.state [ some completed ↦ true | _ ↦ false ]

unfoldable pub is_scanning : SupplicantStatus → Bool
is_scanning self = elim self.state [ some scanning ↦ true | _ ↦ false ]

unfoldable pub is_disconnected : SupplicantStatus → Bool
is_disconnected self = elim self.state [
  | none ↦ true
  | some disconnected ↦ true
  | some inactive ↦ true
  | _ ↦ false
]

unfoldable pub is_associating : SupplicantStatus → Bool
is_associating self = elim self.state [
  | some associating ↦ true
  | some associated ↦ true
  | some four_way_handshake ↦ true
  | some group_handshake ↦ true
  | _ ↦ false
]

-- Whether the band is the one of 2.4 GHz, if it is known.
unfoldable pub is_low_band : SupplicantStatus → Option Bool
is_low_band self = elim self.freq [
  | none ↦ none
  | some (pos f) ↦ some (ltb f 3000)
  | some (negsuc _) ↦ some true
]
