-- ===== src/Wifi/Supplicant.antt =====
-- network-daemon/src/wifi/wpa_supplicant/mod.rs: the known networks and scan results that WpaSupplicant
-- keeps, and its methods on them. The texts are the numbers of their characters.
pub mod Registry
pub mod Choice
pub mod Messages
pub mod Profiles
pub mod Kept
pub mod Filed
pub mod Edits
pub mod Selected
pub mod Connected
pub mod Hidden
mod Tests
use network_daemon.Prelude.{
  ℕ, suc, ◌+◌, Option, none, some, Bool, true, false, ◌||◌, ◌&&◌, List, [], ◌∷◌, ◌++◌, map,
  if◌then◌else◌, Result, ok, err, ltb, leb, length, ◌==◌, Key, ◌===◌, ℕ_discrete,
}
use network_daemon.Prelude.Map
use network_daemon.Prelude.Set
use network_daemon.Prelude.Int.{ℤ, pos, ltb_ℤ, eqb_ℤ}
use network_daemon.Prelude.Search.{codes}
use network_daemon.Mac.{MacAddr}
use network_daemon.Wifi.Security.{
  Security, Security_discrete, Security_key, opened, eap, psk, unknown,
}
use network_daemon.Wifi.Network.{
  KnownNetwork, KnownNetworkState, enabled, disabled, current, ScanResult,
}
use network_daemon.Wifi.Commands.{
  WifiError, ssid_unavailable, known_network_not_found, invalid_password_length, not_supported,
}
use network_daemon.Wifi.Control.{
  Machine, Error, psk_min_len, psk_max_len, fits, remove_network, add_and_configure_network,
}
use network_daemon.Wifi.Control.Links.{select_network}

-- The texts and addresses as keys.
unfoldable pub Text_discrete : Discrete (List ℕ)
Text_discrete = hlevel ℕ_discrete

unfoldable pub MacAddr_discrete : Discrete MacAddr
MacAddr_discrete = hlevel ℕ_discrete

instance abbrev pub MacAddr_key : Key MacAddr
MacAddr_key = record { eq? = MacAddr_discrete }

instance abbrev pub Text_key : Key (List ℕ)
Text_key = record { eq? = Text_discrete }

-- The key of `known_networks`.
pub record SsidKey : Type 0 where
  pub ssid : List ℕ
  pub security : Security

unfoldable pub SsidKey_discrete : Discrete SsidKey
SsidKey_discrete = hlevel (ℕ_discrete, Security_discrete)

instance abbrev pub SsidKey_key : Key SsidKey
SsidKey_key = record { eq? = SsidKey_discrete }

pub record KnownSsidEntry : Type 0 where
  pub no_bssid : Option KnownNetwork
  pub by_bssid : List (MacAddr × KnownNetwork)

abbrev pub no_entry : KnownSsidEntry
no_entry = record { no_bssid = none; by_bssid = [] }

abbrev pub KnownNetworks : Type 0
KnownNetworks = List (SsidKey × KnownSsidEntry)

-- The state, less the control socket, the supervisor and the working directory.
pub record WpaSupplicant : Type 0 where
  pub iface : List ℕ
  pub scan_results : List ScanResult
  pub known_networks : KnownNetworks
  pub status_init : Bool

-- `entry(key).or_default()`.
unfoldable pub entry_of : SsidKey → KnownNetworks → KnownSsidEntry
unfolding Map.get
entry_of key networks = elim (Map.get key networks) [ none ↦ no_entry | some entry ↦ entry ]

-- The network of an entry, by its address or without one.
unfoldable pub find_in : Option MacAddr → KnownSsidEntry → Option KnownNetwork
unfolding Map.get
find_in none entry = entry.no_bssid
find_in (some mac) entry = Map.get mac entry.by_bssid

-- The entry without it: `remove` or `take`.
unfoldable pub take_from : Option MacAddr → KnownSsidEntry → KnownSsidEntry
unfolding Map.remove
take_from none entry = record entry { no_bssid = none }
take_from (some mac) entry = record entry { by_bssid = Map.remove mac entry.by_bssid }

-- The entry with a network.
unfoldable pub put_in : Option MacAddr → KnownNetwork → KnownSsidEntry → KnownSsidEntry
unfolding Map.insert
put_in none network entry = record entry { no_bssid = some network }
put_in (some mac) network entry = record entry { by_bssid = Map.insert mac network entry.by_bssid }

-- A network in the entry of its own SSID and security, by its own address.
unfoldable pub file_network : KnownNetwork → KnownNetworks → KnownNetworks
unfolding entry_of put_in Map.insert
file_network network networks =
    let key : SsidKey = record { ssid = network.ssid; security = network.security } in
    Map.insert key (put_in network.bssid network (entry_of key networks)) networks

unfoldable pub file_all : List KnownNetwork → KnownNetworks → KnownNetworks
unfolding file_network
file_all [] networks = networks
file_all (network ∷ more) networks = file_all more (file_network network networks)

unfoldable pub load_known_networks : List KnownNetwork → WpaSupplicant → WpaSupplicant
unfolding file_all
load_known_networks networks self = record self { known_networks = file_all networks [] }

unfoldable pub networks_of : KnownSsidEntry → List KnownNetwork
unfolding Map.values
networks_of entry = elim entry.no_bssid [
  | none ↦ Map.values entry.by_bssid
  | some n ↦ n ∷ Map.values entry.by_bssid
]

unfoldable pub collect_networks : KnownNetworks → List KnownNetwork
unfolding networks_of
collect_networks [] = []
collect_networks ((_, entry) ∷ more) = networks_of entry ++ collect_networks more

unfoldable pub get_known_networks : WpaSupplicant → List KnownNetwork
unfolding collect_networks
get_known_networks self = collect_networks self.known_networks
