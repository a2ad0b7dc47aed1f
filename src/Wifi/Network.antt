-- ===== src/Wifi/Network.antt =====
-- libnetwork-daemon/src/wifi/network.rs: known networks and scan results, read from lines of text. The
-- upper case of Unicode, and the replacement of bytes that are no UTF-8, are parameters.
pub mod Printed
mod Tests
use network_daemon.Prelude.{
  ℕ, ◌+◌, ◌-◌, ◌*◌, ◌/◌, Option, none, some, Bool, true, false, not, ◌||◌, List, [], ◌∷◌,
  if◌then◌else◌, ltb, ◌==◌,
}
use network_daemon.Prelude.Int.{ℤ, pos, negsuc, parse_i32}
use network_daemon.Prelude.Search.{codes, contains, same_text, split}
use network_daemon.Ssid.{unescape_ssid}
use network_daemon.Mac
use network_daemon.Mac.{MacAddr}
use network_daemon.Wifi.Security.{Security, unknown, from_flags}

pub data KnownNetworkState : Type 0 where
  enabled disabled disconnected current : KnownNetworkState

unfoldable pub state_from_flags : List ℕ → KnownNetworkState
unfolding contains
state_from_flags flags =
    if contains (codes "CURRENT") flags
    then current
    else if contains (codes "DISABLED") flags
    then disabled
    else enabled

pub record KnownNetwork : Type 0 where
  pub id : Option ℤ
  pub priority : ℤ
  pub hidden : Bool
  pub security : Security
  pub state : KnownNetworkState
  pub ssid : List ℕ
  pub bssid : Option MacAddr
  pub password : Option (List ℕ)
  pub identity : Option (List ℕ)
  pub autoconnect : Bool

unfoldable pub is_current : KnownNetworkState → Bool
is_current current = true
is_current enabled = false
is_current disabled = false
is_current disconnected = false

unfoldable pub is_enabled : KnownNetworkState → Bool
is_enabled disabled = false
is_enabled enabled = true
is_enabled disconnected = true
is_enabled current = true

-- The bits, one field each.
pub record ScanFlags : Type 0 where
  pub wpa : Bool
  pub wpa2 : Bool
  pub wpa3 : Bool
  pub wep : Bool
  pub ess : Bool
  pub ibss : Bool
  pub wps : Bool
  pub p2p : Bool
  pub enterprise : Bool
  pub personal : Bool
  pub ccmp : Bool
  pub tkip : Bool

pub record ScanResult : Type 0 where
  pub freq : ℤ
  pub signal : ℤ
  pub bssid : MacAddr
  pub ssid : List ℕ
  pub security : Security
  pub flags : ScanFlags

module _ (to_uppercase from_utf8_lossy : List ℕ → List ℕ) where
  -- The fields of a line of LIST_NETWORKS, after the identifier.
  unfoldable pub known_network : ℤ → List ℕ → List ℕ → List (List ℕ) → KnownNetwork
  unfolding Mac.parse same_text state_from_flags is_enabled unescape_ssid
  known_network id ssid bssid more =
      let state : KnownNetworkState = elim more [
        | [] ↦ disconnected
        | flags ∷ _ ↦ state_from_flags flags
      ] in
      record {
        id = some id;
        priority = pos 0;
        hidden = false;
        security = unknown;
        state = state;
        ssid = unescape_ssid from_utf8_lossy ssid;
        bssid = if same_text bssid (codes "any") then none else Mac.parse bssid;
        password = none;
        identity = none;
        autoconnect = is_enabled state;
      }

  unfoldable pub parse_known : List (List ℕ) → Option KnownNetwork
  unfolding known_network parse_i32
  parse_known (id ∷ ssid ∷ bssid ∷ more) = elim (parse_i32 id) [
    | none ↦ none
    | some n ↦ some (known_network n ssid bssid more)
  ]
  parse_known [] = none
  parse_known (a ∷ []) = none
  parse_known (a ∷ b ∷ []) = none

  -- `KnownNetwork::parse`.
  unfoldable pub parse_known_network : List ℕ → Option KnownNetwork
  unfolding split parse_known
  parse_known_network line = parse_known (split b'\t' line)

  -- `ScanFlags::parse`.
  unfoldable pub parse_flags : List ℕ → ScanFlags
  unfolding contains
  parse_flags flags_str =
      let upper = to_uppercase flags_str in
      record {
        wpa = contains (codes "WPA-") upper;
        wpa2 = contains (codes "WPA2-") upper || contains (codes "RSN-") upper;
        wpa3 = contains (codes "SAE") upper;
        wep = contains (codes "WEP") upper;
        ess = contains (codes "[ESS]") upper;
        ibss = contains (codes "[IBSS]") upper;
        wps = contains (codes "[WPS]") upper;
        p2p = contains (codes "[P2P]") upper;
        enterprise = contains (codes "EAP") upper;
        personal = contains (codes "PSK") upper;
        ccmp = contains (codes "CCMP") upper;
        tkip = contains (codes "TKIP") upper;
      }

  unfoldable pub scan_result : MacAddr → ℤ → ℤ → List ℕ → List ℕ → ScanResult
  unfolding parse_flags from_flags unescape_ssid
  scan_result bssid freq signal flags_str ssid = record {
    freq = freq;
    signal = signal;
    bssid = bssid;
    ssid = unescape_ssid from_utf8_lossy ssid;
    security = from_flags flags_str;
    flags = parse_flags flags_str;
  }

  unfoldable pub parse_scan : List (List ℕ) → Option ScanResult
  unfolding Mac.parse parse_i32 scan_result
  parse_scan (bssid ∷ freq ∷ signal ∷ flags ∷ ssid ∷ _) = elim (Mac.parse bssid) [
    | none ↦ none
    | some b ↦ elim (parse_i32 freq) [
      | none ↦ none
      | some f ↦ elim (parse_i32 signal) [
        | none ↦ none
        | some s ↦ some (scan_result b f s flags ssid)
      ]
    ]
  ]
  parse_scan [] = none
  parse_scan (a ∷ []) = none
  parse_scan (a ∷ b ∷ []) = none
  parse_scan (a ∷ b ∷ c ∷ []) = none
  parse_scan (a ∷ b ∷ c ∷ d ∷ []) = none

  -- `ScanResult::parse`.
  unfoldable pub parse_scan_result : List ℕ → Option ScanResult
  unfolding split parse_scan
  parse_scan_result line = parse_scan (split b'\t' line)

-- How far a signal is above -90, at least 0 and at most 60: `clamped + 90`.
unfoldable pub above_floor : ℤ → ℕ
above_floor (pos _) = 60
above_floor (negsuc n) = if ltb n 30 then 60 else if ltb n 89 then 89 - n else 0

unfoldable pub signal_quality : ScanResult → ℕ
unfolding above_floor
signal_quality self = above_floor self.signal * 100 / 60

-- The frequencies and their channels.
abbrev pub channels : List (ℕ × ℕ)
channels =
    (2412, 1)
    ∷ (2417, 2)
    ∷ (2422, 3)
    ∷ (2427, 4)
    ∷ (2432, 5)
    ∷ (2437, 6)
    ∷ (2442, 7)
    ∷ (2447, 8)
    ∷ (2452, 9)
    ∷ (2457, 10)
    ∷ (2462, 11)
    ∷ (2467, 12)
    ∷ (2472, 13)
    ∷ (2484, 14)
    ∷ (5180, 36)
    ∷ (5200, 40)
    ∷ (5220, 44)
    ∷ (5240, 48)
    ∷ (5260, 52)
    ∷ (5280, 56)
    ∷ (5300, 60)
    ∷ (5320, 64)
    ∷ (5500, 100)
    ∷ (5520, 104)
    ∷ (5540, 108)
    ∷ (5560, 112)
    ∷ (5580, 116)
    ∷ (5600, 120)
    ∷ (5620, 124)
    ∷ (5640, 128)
    ∷ (5660, 132)
    ∷ (5680, 136)
    ∷ (5700, 140)
    ∷ (5720, 144)
    ∷ (5745, 149)
    ∷ (5765, 153)
    ∷ (5785, 157)
    ∷ (5805, 161)
    ∷ (5825, 165)
    ∷ []

unfoldable pub channel_of : List (ℕ × ℕ) → ℕ → ℕ
channel_of [] freq = 0
channel_of ((f, c) ∷ rest) freq = if f == freq then c else channel_of rest freq

unfoldable pub channel : ScanResult → ℕ
unfolding channel_of
channel self = elim self.freq [ pos f ↦ channel_of channels f | negsuc _ ↦ 0 ]
