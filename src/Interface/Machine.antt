-- ===== src/Interface/Machine.antt =====
-- What network-daemon/src/interface/mod.rs asks of the machine: of the kernel, through the requests of
-- network-daemon/src/interface/ifconfig.rs and network-daemon/src/netlink, and of the file `config.toml`.
-- Each call takes and returns the state of the machine, and may fail.
use Prim.Native.String.{String}
use network_daemon.Prelude.{ℕ, Option, List, Bool, Result}
use network_daemon.Ip.{PrefixedIpAddr}
use network_daemon.Interface.Info.{InterfaceInfo}
use network_daemon.Interface.Link.{LinkOptions}
use network_daemon.Config.{DaemonConfig, ConfigError}

pub record Machine : Type 1 where
  pub State : Type 0
  pub IfconfigError : Type 0
  pub NetlinkQueryError : Type 0
  pub create_link : String → LinkOptions → State → Result IfconfigError (Unit {0}) × State
  pub destroy_link : String → State → Result IfconfigError (Unit {0}) × State
  pub set_link_status : String → Bool → State → Result IfconfigError (Unit {0}) × State
  pub set_slaac_state : String → Bool → State → Result IfconfigError (Unit {0}) × State
  pub wireless_devices : State → Result IfconfigError (List String) × State
  -- `NetlinkQuery::new` and `NetlinkModifier::new`.
  pub new_query : State → Result NetlinkQueryError (Unit {0}) × State
  pub new_modifier : State → Result NetlinkQueryError (Unit {0}) × State
  -- The values of the map by index, in the order in which they are iterated.
  pub query_links : State → Result NetlinkQueryError (List InterfaceInfo) × State
  pub query_link : ℕ → State → Result NetlinkQueryError (Option InterfaceInfo) × State
  pub del_link : ℕ → State → Result NetlinkQueryError (Unit {0}) × State
  pub add_address : ℕ → PrefixedIpAddr → State → Result NetlinkQueryError (Unit {0}) × State
  pub del_address : ℕ → PrefixedIpAddr → State → Result NetlinkQueryError (Unit {0}) × State
  pub load : State → Result ConfigError DaemonConfig
  pub save : DaemonConfig → State → Result ConfigError (Unit {0}) × State
