-- ===== src/Wifi/Supplicant/Profiles.antt =====
-- The known networks of network-daemon/src/wifi/wpa_supplicant/mod.rs as a map: a profile is found by its
-- SSID, its security, and its address or none.
use network_daemon.Prelude.{
  ◌≡◌, refl, inl, inr, Option, none, some, Bool, true, false, ◌&&◌, List, [], ◌∷◌, if◌then◌else◌,
  ◌=?◌, ◌===◌, Option-cases, arith,
}
use network_daemon.Prelude.Map
use network_daemon.Prelude.Set
use network_daemon.Mac.{MacAddr}
use network_daemon.Wifi.Network.{KnownNetwork}
use network_daemon.Wifi.Supplicant.{
  SsidKey, SsidKey_key, MacAddr_key, KnownSsidEntry, KnownNetworks, no_entry, entry_of, find_in,
  take_from, put_in, file_network,
}
use network_daemon.Wifi.Supplicant.Registry.{is_some, is_empty_entry, prune}

abbrev pub profile : SsidKey → Option MacAddr → KnownNetworks → Option KnownNetwork
profile key bssid networks = find_in bssid (entry_of key networks)

-- The key of a network.
abbrev pub key_of : KnownNetwork → SsidKey
key_of n = record { ssid = n.ssid; security = n.security }

abbrev pub same_bssid : Option MacAddr → Option MacAddr → Bool
same_bssid none none = true
same_bssid none (some b) = false
same_bssid (some a) none = false
same_bssid (some a) (some b) = a === b

pub same_bssid→eq : (a b : Option MacAddr) → same_bssid a b ≡ true → a ≡ b
same_bssid→eq none none h = refl
same_bssid→eq none (some b) h = cc
same_bssid→eq (some a) none h = cc
same_bssid→eq (some a) (some b) h = ground arith

pub same_bssid_refl : (a : Option MacAddr) → same_bssid a a ≡ true
same_bssid_refl none = refl
same_bssid_refl (some a) = ground arith

-- Whether two places are the same.
abbrev pub same_place : SsidKey → Option MacAddr → SsidKey → Option MacAddr → Bool
same_place key a j b = key === j && same_bssid a b

find_in-put_in :
    (b c : Option MacAddr) (n : KnownNetwork) (entry : KnownSsidEntry)
    → find_in c (put_in b n entry) ≡ (if same_bssid b c then some n else find_in c entry)
unfolding find_in put_in
find_in-put_in none none n entry = refl
find_in-put_in none (some c) n entry = refl
find_in-put_in (some b) none n entry = refl
find_in-put_in (some b) (some c) n entry = Map.get-insert c b n entry.by_bssid

find_in-take_from :
    (b c : Option MacAddr) (entry : KnownSsidEntry)
    → find_in c (take_from b entry) ≡ (if same_bssid b c then none else find_in c entry)
unfolding find_in take_from
find_in-take_from none none entry = refl
find_in-take_from none (some c) entry = refl
find_in-take_from (some b) none entry = refl
find_in-take_from (some b) (some c) entry = Map.get-remove c b entry.by_bssid

entry_of-insert :
    (j key : SsidKey) (entry : KnownSsidEntry) (networks : KnownNetworks)
    → entry_of j (Map.insert key entry networks)
      ≡ (if key === j then entry else entry_of j networks)
unfolding entry_of
entry_of-insert j key entry networks = ground (arith, Map.get-insert j key entry networks)

pub profile-put_in :
    (j key : SsidKey) (b c : Option MacAddr) (n : KnownNetwork) (networks : KnownNetworks)
    → profile j c (Map.insert key (put_in b n (entry_of key networks)) networks)
      ≡ (if same_place key b j c then some n else profile j c networks)
profile-put_in j key b c n networks =
    let entry = put_in b n (entry_of key networks) in
    let outer = entry_of-insert j key entry networks in
    let inner = find_in-put_in b c n (entry_of key networks) in
    elim (key =? j) [
      | yes e ↦ ground (arith, outer, inner, e)
      | no d ↦ ground (arith, outer, inner, d)
    ]

pub profile-take_from :
    (j key : SsidKey) (b c : Option MacAddr) (networks : KnownNetworks)
    → profile j c (Map.insert key (take_from b (entry_of key networks)) networks)
      ≡ (if same_place key b j c then none else profile j c networks)
profile-take_from j key b c networks =
    let entry = take_from b (entry_of key networks) in
    let outer = entry_of-insert j key entry networks in
    let inner = find_in-take_from b c (entry_of key networks) in
    elim (key =? j) [
      | yes e ↦ ground (arith, outer, inner, e)
      | no d ↦ ground (arith, outer, inner, d)
    ]

pub profile-file_network :
    (j : SsidKey) (c : Option MacAddr) (n : KnownNetwork) (networks : KnownNetworks)
    → profile j c (file_network n networks)
      ≡ (if same_place (key_of n) n.bssid j c then some n else profile j c networks)
unfolding file_network
profile-file_network j c n networks = profile-put_in j (key_of n) n.bssid c n networks

get_empty :
    (mac : MacAddr) (l : List (MacAddr × KnownNetwork))
    → Set.is_empty l ≡ true
    → Map.get mac l ≡ none
unfolding Set.is_empty Map.get
get_empty mac [] h = refl
get_empty mac (x ∷ l) h = cc

find_in_empty :
    (c : Option MacAddr) (entry : KnownSsidEntry)
    → is_empty_entry entry ≡ true
    → find_in c entry ≡ none
unfolding find_in is_empty_entry is_some
find_in_empty none entry h = ground arith
find_in_empty (some mac) entry h = ground (arith, get_empty mac entry.by_bssid)

-- Dropping an empty entry loses no profile.
pub profile-prune :
    (j key : SsidKey) (c : Option MacAddr) (networks : KnownNetworks)
    → profile j c (prune key networks) ≡ profile j c networks
unfolding prune entry_of
profile-prune j key c networks = elim (Option-cases (Map.get key networks)) [
  | inl miss ↦ rw (miss, prune) refl
  | inr (entry, hit) ↦
      let lone = find_in_empty c entry in
      let none_in : find_in c no_entry ≡ none = find_in_empty c no_entry refl in
      elim (key =? j) [
        | yes e ↦ ground (arith, Map.get-remove j key networks, hit, lone, none_in, e)
        | no d ↦ ground (arith, Map.get-remove j key networks, hit, lone, d)
      ]
]
