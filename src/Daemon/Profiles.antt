-- ===== src/Daemon/Profiles.antt =====
-- persisted_networks of network-daemon/src/daemon/service.rs: the networks of an interface that were saved,
-- from config.toml and from the credentials. The texts of both are read as the numbers of their characters.
pub mod Loaded
use Prim.Native.Nat.{Ordering, compare}
use Prim.Native.String.{String}
use network_daemon.Prelude.{
  ℕ, ◌+◌, ◌-◌, ◌/◌, ◌%◌, ◌^◌, Option, none, some, Bool, true, false, not, ◌||◌, ◌&&◌, List, [], ◌∷◌,
  map, if◌then◌else◌, any, ltb, Key, ◌===◌, Option_key, ℕ_discrete,
}
use network_daemon.Prelude.Map
use network_daemon.Prelude.Int.{ℤ, pos, negsuc}
use network_daemon.Prelude.Search.{codes}
use network_daemon.Ip.{unwrap_or}
use network_daemon.Mac
use network_daemon.Mac.{MacAddr}
use network_daemon.Config.{NetworkConfig, DaemonConfig}
use network_daemon.Storage.{Credential}
use network_daemon.Wifi.Security.{Security, Security_discrete, opened, eap, psk, unknown, from_name}
use network_daemon.Wifi.Network.{KnownNetwork, enabled, disabled}
use network_daemon.Wifi.Supplicant.{Text_key}

-- The bytes of an interface's MAC address, which is kept as their number.
abbrev pub mac_of : ℕ → MacAddr
mac_of n = record {
  octets =
      n / 2 ^ 40 % 256
      ∷ n / 2 ^ 32 % 256
      ∷ n / 2 ^ 24 % 256
      ∷ n / 2 ^ 16 % 256
      ∷ n / 2 ^ 8 % 256
      ∷ n % 256
      ∷ [];
}

-- The number that 32 bits are as an `i32`.
abbrev pub i32_of : ℕ → ℤ
i32_of b = if ltb b (2 ^ 31) then pos b else negsuc (2 ^ 32 - 1 - b)

abbrev pub text_of : Option String → Option (List ℕ)
text_of none = none
text_of (some s) = some (codes s)

-- The key of the map: SSID, BSSID and security.
pub record ProfileKey : Type 0 where
  pub ssid : List ℕ
  pub bssid : Option MacAddr
  pub security : Security

unfoldable pub ProfileKey_discrete : Discrete ProfileKey
unfolding Security_discrete ℕ_discrete
ProfileKey_discrete = hlevel (ℕ_discrete, Security_discrete)

instance abbrev pub ProfileKey_key : Key ProfileKey
ProfileKey_key = record { eq? = ProfileKey_discrete }

-- `interface_mac.map(|value| value.to_string())`.
unfoldable pub mac_text : Option ℕ → Option (List ℕ)
unfolding Mac.fmt
mac_text none = none
mac_text (some n) = some (Mac.fmt (mac_of n))

-- Whether some of the entries belong to the MAC address.
unfoldable pub has_scoped : Option (List ℕ) → List (Option String) → Bool
has_scoped none macs = false
has_scoped (some mac) macs = any (λ interface_mac. text_of interface_mac === some mac) macs

-- `config_in_scope` and `credential_in_scope`, by the MAC address of the entry.
unfoldable pub in_scope : Option (List ℕ) → Bool → Option String → Bool
in_scope none scoped interface_mac = text_of interface_mac === none
in_scope (some mac) scoped interface_mac =
    text_of interface_mac === some mac || (not scoped && text_of interface_mac === none)

-- `bssid.as_deref().and_then(MacAddr::parse)`.
unfoldable pub parse_bssid : Option String → Option MacAddr
unfolding Mac.parse
parse_bssid none = none
parse_bssid (some s) = Mac.parse (codes s)

unfoldable pub key_of_config : NetworkConfig → ProfileKey
unfolding parse_bssid from_name
key_of_config metadata = record {
  ssid = codes metadata.ssid;
  bssid = parse_bssid metadata.bssid;
  security = from_name (codes metadata.security);
}

unfoldable pub key_of_credential : Credential → ProfileKey
unfolding parse_bssid from_name
key_of_credential credential = record {
  ssid = codes credential.ssid;
  bssid = parse_bssid credential.bssid;
  security = from_name (codes credential.security);
}

-- The network that an entry of config.toml inserts under the key.
unfoldable pub network_of_config : ProfileKey → NetworkConfig → KnownNetwork
network_of_config key metadata = record {
  id = none;
  priority = i32_of metadata.priority;
  hidden = metadata.hidden;
  security = key.security;
  state = if metadata.enabled then enabled else disabled;
  ssid = key.ssid;
  bssid = key.bssid;
  password = none;
  identity = none;
  autoconnect = metadata.enabled;
}

-- The network that a credential without an entry inserts.
unfoldable pub blank_network : ProfileKey → KnownNetwork
blank_network key = record {
  id = none;
  priority = pos 0;
  hidden = false;
  security = key.security;
  state = enabled;
  ssid = key.ssid;
  bssid = key.bssid;
  password = none;
  identity = none;
  autoconnect = true;
}

unfoldable pub with_secrets : Credential → KnownNetwork → KnownNetwork
with_secrets credential network = record network {
  password = text_of credential.psk;
  identity = text_of credential.identity;
}

-- The loop over the entries of config.toml.
unfoldable pub add_configs :
    (NetworkConfig → Bool)
    → List NetworkConfig
    → List (ProfileKey × KnownNetwork)
    → List (ProfileKey × KnownNetwork)
unfolding Map.insert key_of_config network_of_config
add_configs config_in_scope [] networks = networks
add_configs config_in_scope (metadata ∷ rest) networks =
    let key = key_of_config metadata in
    add_configs config_in_scope rest (
      if config_in_scope metadata
      then Map.insert key (network_of_config key metadata) networks
      else networks)

-- The loop over the credentials.
unfoldable pub add_credentials :
    (Credential → Bool)
    → List Credential
    → List (ProfileKey × KnownNetwork)
    → List (ProfileKey × KnownNetwork)
unfolding Map.insert Map.get key_of_credential with_secrets blank_network unwrap_or
add_credentials credential_in_scope [] networks = networks
add_credentials credential_in_scope (credential ∷ rest) networks =
    let key = key_of_credential credential in
    let network = unwrap_or (blank_network key) (Map.get key networks) in
    add_credentials credential_in_scope rest (
      if credential_in_scope credential
      then Map.insert key (with_secrets credential network) networks
      else networks)

-- `Ord` of texts.
unfoldable pub compare_text : List ℕ → List ℕ → Ordering
compare_text [] [] = Ordering.eq
compare_text [] (d ∷ t) = Ordering.lt
compare_text (c ∷ s) [] = Ordering.gt
compare_text (c ∷ s) (d ∷ t) =
    let rest = compare_text s t in
    elim (compare c d) [
      | Ordering.lt ↦ Ordering.lt
      | Ordering.eq ↦ rest
      | Ordering.gt ↦ Ordering.gt
    ]

abbrev pub and_then_compare : Ordering → Ordering → Ordering
and_then_compare Ordering.lt o = Ordering.lt
and_then_compare Ordering.eq o = o
and_then_compare Ordering.gt o = Ordering.gt

-- `Display` of Security.
unfoldable pub security_text : Security → List ℕ
security_text opened = codes "Open"
security_text eap = codes "EAP"
security_text psk = codes "PSK"
security_text unknown = codes "N/A"

-- The text of a BSSID, empty without one.
unfoldable pub bssid_text : Option MacAddr → List ℕ
unfolding Mac.fmt
bssid_text none = []
bssid_text (some bssid) = Mac.fmt bssid

-- The order of the keys that are sorted by.
unfoldable pub compare_networks : KnownNetwork → KnownNetwork → Ordering
unfolding compare_text security_text bssid_text
compare_networks a b = and_then_compare (compare_text a.ssid b.ssid) (
    and_then_compare (compare_text (security_text a.security) (security_text b.security))
      (compare_text (bssid_text a.bssid) (bssid_text b.bssid)))

-- `sort_by_key`, which is stable: a network is put before the first that is not less.
unfoldable pub put_sorted : KnownNetwork → List KnownNetwork → List KnownNetwork
unfolding compare_networks
put_sorted n [] = n ∷ []
put_sorted n (m ∷ networks) =
    let rest = put_sorted n networks in
    elim (compare_networks m n) [
      | Ordering.lt ↦ m ∷ rest
      | Ordering.eq ↦ n ∷ m ∷ networks
      | Ordering.gt ↦ n ∷ m ∷ networks
    ]

unfoldable pub sort_networks : List KnownNetwork → List KnownNetwork
unfolding put_sorted
sort_networks [] = []
sort_networks (n ∷ networks) = put_sorted n (sort_networks networks)

-- Whether an entry of config.toml, or a credential, is in the scope of the interface.
unfoldable pub config_in_scope : DaemonConfig → Option ℕ → NetworkConfig → Bool
unfolding mac_text has_scoped in_scope
config_in_scope config interface_mac network =
    let mac = mac_text interface_mac in
    in_scope mac (has_scoped mac (map (λ (n : NetworkConfig). n.interface_mac) config.networks))
      network.interface_mac

unfoldable pub credential_in_scope : List Credential → Option ℕ → Credential → Bool
unfolding mac_text has_scoped in_scope
credential_in_scope credentials interface_mac credential =
    let mac = mac_text interface_mac in
    in_scope mac (has_scoped mac (map (λ (c : Credential). c.interface_mac) credentials))
      credential.interface_mac

-- The map of the networks, and persisted_networks.
unfoldable pub profiles :
    DaemonConfig → List Credential → Option ℕ → List (ProfileKey × KnownNetwork)
unfolding add_configs add_credentials config_in_scope credential_in_scope
profiles config credentials interface_mac =
    add_credentials (credential_in_scope credentials interface_mac) credentials
      (add_configs (config_in_scope config interface_mac) config.networks [])

unfoldable pub persisted_networks : DaemonConfig → List Credential → Option ℕ → List KnownNetwork
unfolding profiles sort_networks Map.values
persisted_networks config credentials interface_mac =
    sort_networks (Map.values (profiles config credentials interface_mac))
