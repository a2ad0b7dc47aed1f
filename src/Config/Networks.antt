-- ===== src/Config/Networks.antt =====
-- The saved networks of network-daemon/src/config/mod.rs.
use Prim.Native.String.{String}
use network_daemon.Prelude.{
  ◌+◌, ◌≤◌, ◌≡◌, refl, Option, some, List, [], ◌∷◌, Bool, true, false, if◌then◌else◌, length, any,
  string_key, Option_key, arith,
}
use network_daemon.Config.{
  NetworkConfig, DaemonConfig, same_network, upsert_networks, upsert_network, is_removed,
  retain_networks, remove_network,
}

length-retain_networks :
    (same : NetworkConfig → Bool) (l : List NetworkConfig)
    → length (retain_networks same l) + (if any same l then 1 else 0) ≤ length l
unfolding retain_networks
length-retain_networks same [] = omega arith
length-retain_networks same (n ∷ l) = ground (arith, length-retain_networks same l)

retain_networks_all :
    (same : NetworkConfig → Bool) (l : List NetworkConfig)
    → any same l ≡ false
    → retain_networks same l ≡ l
unfolding retain_networks
retain_networks_all same [] h = refl
retain_networks_all same (n ∷ l) h = ground (arith, retain_networks_all same l)

any-retain_networks :
    (same : NetworkConfig → Bool) (l : List NetworkConfig)
    → any same (retain_networks same l) ≡ false
unfolding retain_networks
any-retain_networks same [] = refl
any-retain_networks same (n ∷ l) = ground (arith, any-retain_networks same l)

-- Removal says that it removed something exactly when some saved network is one to remove, and then none
-- is left.
remove_network_lem :
    (self : DaemonConfig) (interface_mac : Option String) (ssid : String)
    (bssid security : Option String)
    → let test = is_removed interface_mac ssid bssid security in
      let (self', removed) = remove_network self interface_mac ssid bssid security in
      (removed ≡ any test self.networks) × (any test self'.networks ≡ false)
unfolding remove_network
remove_network_lem self interface_mac ssid bssid security =
    let test = is_removed interface_mac ssid bssid security in
    (
      ground (
        arith,
        length-retain_networks test self.networks,
        retain_networks_all test self.networks,
      ),
      any-retain_networks test self.networks,
    )

-- The test of a removal by all the keys of a network is the test of its insertion.
is_removed-same_network :
    (n net : NetworkConfig)
    → is_removed net.interface_mac net.ssid net.bssid (some net.security) n ≡ same_network n net
unfolding is_removed same_network
is_removed-same_network n net = refl

retain-upsert :
    (net : NetworkConfig) (same : NetworkConfig → Bool) (l : List NetworkConfig)
    → ((n : NetworkConfig) → same n ≡ same_network n net)
    → same_network net net ≡ true
    → any same l ≡ false
    → retain_networks same (upsert_networks net l) ≡ l
unfolding retain_networks upsert_networks
retain-upsert net same [] h own new = ground (arith, h net)
retain-upsert net same (n ∷ l) h own new = ground (arith, h n, retain-upsert net same l h own)

same_network_refl : (net : NetworkConfig) → same_network net net ≡ true
unfolding same_network
same_network_refl net = ground arith

any-same :
    (test : NetworkConfig → Bool) (net : NetworkConfig) (l : List NetworkConfig)
    → ((n : NetworkConfig) → test n ≡ same_network n net)
    → any (λ n. same_network n net) l ≡ false
    → any test l ≡ false
any-same test net [] h e = refl
any-same test net (n ∷ l) h e = ground (arith, h n, any-same test net l h)

length-upsert :
    (net : NetworkConfig) (l : List NetworkConfig)
    → any (λ n. same_network n net) l ≡ false
    → length (upsert_networks net l) ≡ length l + 1
unfolding upsert_networks
length-upsert net [] h = refl
length-upsert net (n ∷ l) h = ground (arith, length-upsert net l)

-- Saving a network that is not saved yet, and removing it by all its keys, leaves the configuration as
-- it was, and the removal says that it removed something.
pub remove_network-upsert_network :
    (self : DaemonConfig) (net : NetworkConfig)
    → any (λ n. same_network n net) self.networks ≡ false
    → remove_network
        (upsert_network self net)
        net.interface_mac
        net.ssid
        net.bssid
        (some net.security)
      ≡ (self, true)
unfolding remove_network upsert_network
remove_network-upsert_network self net new =
    let test = is_removed net.interface_mac net.ssid net.bssid (some net.security) in
    let same = λ (n : NetworkConfig). is_removed-same_network n net in
    let none_yet : any test self.networks ≡ false = any-same test net self.networks same new in
    let back = retain-upsert net test self.networks same (same_network_refl net) none_yet in
    ground (arith, back, length-upsert net self.networks new)
