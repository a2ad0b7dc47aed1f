-- ===== src/Config/Tests.antt =====
-- The theorems about network-daemon/src/config/mod.rs, applied.
use network_daemon.Prelude.{◌≡◌, none, some, true, false, refl}
use network_daemon.Config.{NetworkConfig, default_config, upsert_network, remove_network}
use network_daemon.Config.Networks.{remove_network-upsert_network}

abbrev home : NetworkConfig
home = record {
  ssid = "home";
  interface_mac = none;
  bssid = some "02:00:00:00:00:01";
  security = "Psk";
  hidden = false;
  priority = 0;
  enabled = true;
}

remove_network-upsert_network_example :
    remove_network
      (upsert_network default_config home)
      none
      "home"
      (some "02:00:00:00:00:01")
      (some "Psk")
    ≡ (default_config, true)
remove_network-upsert_network_example = remove_network-upsert_network default_config home refl
