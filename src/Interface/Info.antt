-- ===== src/Interface/Info.antt =====
-- libnetwork-daemon/src/interface/mod.rs and state.rs: what is known of an interface.
use Prim.Native.String.{String}
use network_daemon.Prelude.{
  ℕ, Bool, true, false, Option, none, List, [], ◌∷◌, ◌++◌, Key, ◌===◌, ℕ_discrete, String_discrete,
}
use network_daemon.Prelude.Set
use network_daemon.Ip.{
  PrefixedIpv4Addr, PrefixedIpv6Addr, PrefixedIpAddr, PrefixedIpv4Addr_key, PrefixedIpv6Addr_key,
  PrefixedIpv4Addr_discrete, PrefixedIpv6Addr_discrete,
}

pub data ConnectionState : Type 0 where
  up connected disconnected no_carrier disabled not_applicable unmanaged : ConnectionState

pub data InterfaceType : Type 0 where
  bridge tun vlan vxlan gre_tun wireguard loopback wlan ethernet lagg usbus tap vmnet openvpn stf :
      InterfaceType
  epair enc pflog pfsync ipfw ipfwlog disc me edsc ipsec gif other : InterfaceType

unfoldable pub ConnectionState_discrete : Discrete ConnectionState
ConnectionState_discrete = hlevel

unfoldable pub InterfaceType_discrete : Discrete InterfaceType
InterfaceType_discrete = hlevel

instance abbrev pub ConnectionState_key : Key ConnectionState
ConnectionState_key = record { eq? = ConnectionState_discrete }

instance abbrev pub InterfaceType_key : Key InterfaceType
InterfaceType_key = record { eq? = InterfaceType_discrete }

-- A MAC address is the number of its six bytes.
pub record InterfaceInfo : Type 0 where
  pub id : ℕ
  pub name : String
  pub state : ConnectionState
  pub interface_type : InterfaceType
  pub mac_addr : Option ℕ
  pub ipv4_addrs : List PrefixedIpv4Addr
  pub ipv6_addrs : List PrefixedIpv6Addr
  pub gateway_ipv4 : Option PrefixedIpv4Addr
  pub gateway_ipv6 : Option PrefixedIpv6Addr
  pub dhcpv4_enabled : Bool
  pub slaac_enabled : Bool
  pub parent : Option String

-- The derived `PartialEq` and `Hash`.
unfoldable pub InterfaceInfo_discrete : Discrete InterfaceInfo
unfolding ConnectionState_discrete InterfaceType_discrete ℕ_discrete String_discrete
    PrefixedIpv4Addr_discrete PrefixedIpv6Addr_discrete
InterfaceInfo_discrete = hlevel (
  ConnectionState_discrete, InterfaceType_discrete, ℕ_discrete, String_discrete,
  PrefixedIpv4Addr_discrete, PrefixedIpv6Addr_discrete,
)

instance abbrev pub InterfaceInfo_key : Key InterfaceInfo
InterfaceInfo_key = record { eq? = InterfaceInfo_discrete }

-- `InterfaceInfo::new`.
abbrev pub new : ℕ → String → InterfaceInfo
new id name = record {
  id = id;
  name = name;
  state = not_applicable;
  interface_type = other;
  mac_addr = none;
  ipv4_addrs = [];
  ipv6_addrs = [];
  gateway_ipv4 = none;
  gateway_ipv6 = none;
  dhcpv4_enabled = true;
  slaac_enabled = false;
  parent = none;
}

unfoldable pub add_addr : InterfaceInfo → PrefixedIpAddr → InterfaceInfo
add_addr self (PrefixedIpAddr.v4 v4) = record self { ipv4_addrs = self.ipv4_addrs ++ v4 ∷ [] }
add_addr self (PrefixedIpAddr.v6 v6) = record self { ipv6_addrs = self.ipv6_addrs ++ v6 ∷ [] }

unfoldable pub contains_addr : InterfaceInfo → PrefixedIpAddr → Bool
contains_addr self (PrefixedIpAddr.v4 v4) = Set.contains v4 self.ipv4_addrs
contains_addr self (PrefixedIpAddr.v6 v6) = Set.contains v6 self.ipv6_addrs

unfoldable pub is_wlan : InterfaceInfo → Bool
is_wlan self = self.interface_type === wlan

-- The events that the interface manager broadcasts.
pub data InterfaceManagerEvent : Type 0 where
  interface_added interface_removed interface_changed : InterfaceInfo → InterfaceManagerEvent

-- The predicates of `ConnectionState`.
unfoldable pub is_online : ConnectionState → Bool
is_online connected = true
is_online _ = false

unfoldable pub is_available : ConnectionState → Bool
is_available connected = true
is_available disconnected = true
is_available _ = false

unfoldable pub is_up : ConnectionState → Bool
is_up up = true
is_up connected = true
is_up disconnected = true
is_up _ = false

unfoldable pub is_managed : ConnectionState → Bool
is_managed unmanaged = false
is_managed _ = true
