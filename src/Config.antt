-- ===== src/Config.antt =====
-- network-daemon/src/config/mod.rs: the settings that the daemon keeps in `config.toml`. The text form
-- and the file system are other code's: a file is missing, cannot be read or parsed, or holds settings.
pub mod Networks
mod Tests
use Prim.Native.String.{String}
use network_daemon.Prelude.{
  ℕ, Option, none, some, List, [], ◌∷◌, Bool, true, false, ◌&&◌, not, if◌then◌else◌, length, ◌==◌,
  Key, ◌===◌, string_key, Option_key,
}
use network_daemon.Interface.Link.{LinkOptions, WlanLinkOptions}

pub record InterfaceConfig : Type 0 where
  pub slaac : Bool
  pub dhcpv4 : Bool
  pub create_wlan : Bool
  pub wlan : Option WlanLinkOptions
  pub creation : Option LinkOptions

-- `InterfaceConfig::default`.
abbrev pub default_interface : InterfaceConfig
default_interface = record {
  slaac = false;
  dhcpv4 = true;
  create_wlan = true;
  wlan = none;
  creation = none;
}

-- The priority is an `i32` by its bits.
pub record NetworkConfig : Type 0 where
  pub ssid : String
  pub interface_mac : Option String
  pub bssid : Option String
  pub security : String
  pub hidden : Bool
  pub priority : ℕ
  pub enabled : Bool

pub record DaemonConfig : Type 0 where
  pub networks : List NetworkConfig
  pub interfaces : List (String × InterfaceConfig)

abbrev pub default_config : DaemonConfig
default_config = record { networks = []; interfaces = [] }

pub data ConfigError : Type 0 where
  not_found read parse : ConfigError

-- The test of `upsert_network`.
unfoldable pub same_network : NetworkConfig → NetworkConfig → Bool
same_network n net =
    n.interface_mac === net.interface_mac
    && n.ssid === net.ssid
    && n.bssid === net.bssid
    && n.security === net.security

-- The first entry that is the same network is replaced; a new one is added at the end.
unfoldable pub upsert_networks : NetworkConfig → List NetworkConfig → List NetworkConfig
unfolding same_network
upsert_networks net [] = net ∷ []
upsert_networks net (n ∷ networks) =
    if same_network n net then net ∷ networks else n ∷ upsert_networks net networks

unfoldable pub upsert_network : DaemonConfig → NetworkConfig → DaemonConfig
unfolding upsert_networks
upsert_network self net = record self { networks = upsert_networks net self.networks }

-- The test of `remove_network`.
unfoldable pub is_removed :
    Option String → String → Option String → Option String → NetworkConfig → Bool
is_removed interface_mac ssid bssid security n =
    n.interface_mac === interface_mac
    && n.ssid === ssid
    && n.bssid === bssid
    && elim security [ none ↦ true | some value ↦ n.security === value ]

unfoldable pub retain_networks : (NetworkConfig → Bool) → List NetworkConfig → List NetworkConfig
retain_networks same [] = []
retain_networks same (n ∷ networks) =
    if same n then retain_networks same networks else n ∷ retain_networks same networks

unfoldable pub remove_network :
    DaemonConfig → Option String → String → Option String → Option String → DaemonConfig × Bool
unfolding is_removed retain_networks
remove_network self interface_mac ssid bssid security =
    let networks = retain_networks (is_removed interface_mac ssid bssid security) self.networks in
    (record self { networks = networks }, not (length networks == length self.networks))
