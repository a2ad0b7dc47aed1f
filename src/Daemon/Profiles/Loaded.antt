-- ===== src/Daemon/Profiles/Loaded.antt =====
-- Which networks persisted_networks of network-daemon/src/daemon/service.rs gives.
use Prim.Native.Nat.{Ordering}
use network_daemon.Prelude.{
  ℕ, ◌≡◌, refl, sym, ap, ◌∙◌, ◌↔◌, inl, inr, ◌⊎◌, Option, none, some, Bool, true, false, List, [],
  ◌∷◌, if◌then◌else◌, Bool-cases, In, ◌===◌, arith, some_inj,
}
use network_daemon.Prelude.Map
use network_daemon.Ip.{unwrap_or}
use network_daemon.Config.{NetworkConfig, DaemonConfig}
use network_daemon.Storage.{Credential}
use network_daemon.Wifi.Network.{KnownNetwork}
use network_daemon.Daemon.Profiles.{
  ProfileKey, ProfileKey_key, key_of_config, key_of_credential, network_of_config, blank_network,
  with_secrets, add_configs, add_credentials, config_in_scope, credential_in_scope, profiles,
  compare_networks, put_sorted, sort_networks, persisted_networks,
}

-- The last element of a list that is in the scope and has the key.
unfoldable pub latest {ℓ} :
    {A : Type ℓ} → (A → Bool) → (A → ProfileKey) → ProfileKey → List A → Option A
latest scope key_of k [] = none
latest scope key_of k (x ∷ xs) =
    let here = if scope x then (if key_of x === k then some x else none) else none in
    elim (latest scope key_of k xs) [ some y ↦ some y | none ↦ here ]

-- The network of an entry.
abbrev pub configured : ProfileKey → Option NetworkConfig → Option KnownNetwork
configured k none = none
configured k (some metadata) = some (network_of_config k metadata)

-- The same with the secrets of a credential, which stands for itself where there is no entry.
abbrev pub with_credential :
    ProfileKey → Option Credential → Option KnownNetwork → Option KnownNetwork
with_credential k none network = network
with_credential k (some credential) network =
    some (with_secrets credential (unwrap_or (blank_network k) network))

-- What the last entry and the last credential in scope make of a key.
unfoldable pub expected :
    DaemonConfig → List Credential → Option ℕ → ProfileKey → Option KnownNetwork
unfolding latest network_of_config with_secrets blank_network unwrap_or
expected config credentials mac k =
    with_credential k (latest (credential_in_scope credentials mac) key_of_credential k credentials)
      (configured k (latest (config_in_scope config mac) key_of_config k config.networks))

abbrev or_configured : ProfileKey → Option NetworkConfig → Option KnownNetwork → Option KnownNetwork
or_configured k none network = network
or_configured k (some metadata) network = some (network_of_config k metadata)

get-add_configs :
    (scope : NetworkConfig → Bool) (k : ProfileKey) (entries : List NetworkConfig)
    (m : List (ProfileKey × KnownNetwork))
    → Map.get k (add_configs scope entries m)
      ≡ or_configured k (latest scope key_of_config k entries) (Map.get k m)
unfolding add_configs latest
get-add_configs scope k [] m = refl
get-add_configs scope k (e ∷ entries) m =
    let key = key_of_config e in
    ground (
      arith,
      get-add_configs scope k entries m,
      get-add_configs scope k entries (Map.insert key (network_of_config key e) m),
      Map.get-insert k key (network_of_config key e) m,
    )

get-add_credentials :
    (scope : Credential → Bool) (k : ProfileKey) (credentials : List Credential)
    (m : List (ProfileKey × KnownNetwork))
    → Map.get k (add_credentials scope credentials m)
      ≡ with_credential k (latest scope key_of_credential k credentials) (Map.get k m)
unfolding add_credentials latest with_secrets unwrap_or
get-add_credentials scope k [] m = refl
get-add_credentials scope k (c ∷ credentials) m =
    let key = key_of_credential c in
    let network = with_secrets c (unwrap_or (blank_network key) (Map.get key m)) in
    ground (
      arith,
      get-add_credentials scope k credentials m,
      get-add_credentials scope k credentials (Map.insert key network m),
      Map.get-insert k key network m,
    )

or_none :
    (k : ProfileKey) (found : Option NetworkConfig)
    → or_configured k found none ≡ configured k found
or_none k none = refl
or_none k (some metadata) = refl

-- The map holds under a key what the last entry and the last credential in scope make of it.
get-profiles :
    (config : DaemonConfig) (credentials : List Credential) (mac : Option ℕ) (k : ProfileKey)
    → Map.get k (profiles config credentials mac) ≡ expected config credentials mac k
unfolding profiles expected Map.get
get-profiles config credentials mac k =
    get-add_credentials (credential_in_scope credentials mac) k credentials
      (add_configs (config_in_scope config mac) config.networks [])
    ∙ ap
        (with_credential k
          (latest (credential_in_scope credentials mac) key_of_credential k credentials))
        (get-add_configs (config_in_scope config mac) k config.networks []
          ∙ or_none k (latest (config_in_scope config mac) key_of_config k config.networks))

-- The key of a network.
abbrev pub key_of : KnownNetwork → ProfileKey
key_of n = record { ssid = n.ssid; bssid = n.bssid; security = n.security }

-- Each network stands under its own key, and only once.
abbrev IsFiled : List (ProfileKey × KnownNetwork) → Type 0
IsFiled [] = Unit
IsFiled ((k, n) ∷ m) = (key_of n ≡ k) × (Map.get k m ≡ none) × IsFiled m

choose-IsFiled :
    (b : Bool) (m o : List (ProfileKey × KnownNetwork))
    → (b ≡ true → IsFiled m)
    → (b ≡ false → IsFiled o)
    → IsFiled (if b then m else o)
choose-IsFiled true m o h g = h refl
choose-IsFiled false m o h g = g refl

same_key : (j k : ProfileKey) → (j === k) ≡ true → j ≡ k
same_key j k e = ground arith

insert-IsFiled :
    (k : ProfileKey) (n : KnownNetwork) (m : List (ProfileKey × KnownNetwork))
    → key_of n ≡ k
    → IsFiled m
    → IsFiled (Map.insert k n m)
unfolding Map.insert Map.get
insert-IsFiled k n [] e h = (e, refl, tt)
insert-IsFiled k n ((j, o) ∷ m) e (own, once, more) =
    choose-IsFiled (j === k) ((k, n) ∷ m) ((j, o) ∷ Map.insert k n m)
      (λ same. (e, rw (same_key j k same) at once, more))
      (λ other. (own, ground (arith, Map.get-insert j k n m), insert-IsFiled k n m e more))

add_configs-IsFiled :
    (scope : NetworkConfig → Bool) (entries : List NetworkConfig)
    (m : List (ProfileKey × KnownNetwork))
    → IsFiled m
    → IsFiled (add_configs scope entries m)
unfolding add_configs network_of_config
add_configs-IsFiled scope [] m h = h
add_configs-IsFiled scope (e ∷ entries) m h =
    let key = key_of_config e in
    let added = Map.insert key (network_of_config key e) m in
    add_configs-IsFiled scope entries (if scope e then added else m) (
      choose-IsFiled (scope e) added m (λ _. insert-IsFiled key (network_of_config key e) m refl h)
        (λ _. h))

-- A network that is looked up is there under its own key.
get-key_of :
    (k : ProfileKey) (m : List (ProfileKey × KnownNetwork)) (n : KnownNetwork)
    → IsFiled m
    → Map.get k m ≡ some n
    → key_of n ≡ k
unfolding Map.get
get-key_of k [] n h e = cc
get-key_of k ((j, o) ∷ m) n (own, once, more) e = elim (Bool-cases (j === k)) [
  | inl same ↦
      (let found : o ≡ n = some_inj (ground arith) in
        ap key_of (sym found) ∙ own ∙ same_key j k same)
  | inr other ↦ get-key_of k m n more (ground arith)
]

key_of-with_secrets :
    (c : Credential) (key : ProfileKey) (found : Option KnownNetwork)
    → ((n : KnownNetwork) → found ≡ some n → key_of n ≡ key)
    → key_of (with_secrets c (unwrap_or (blank_network key) found)) ≡ key
unfolding with_secrets blank_network unwrap_or
key_of-with_secrets c key none h = refl
key_of-with_secrets c key (some n) h = h n refl

add_credentials-IsFiled :
    (scope : Credential → Bool) (credentials : List Credential)
    (m : List (ProfileKey × KnownNetwork))
    → IsFiled m
    → IsFiled (add_credentials scope credentials m)
unfolding add_credentials
add_credentials-IsFiled scope [] m h = h
add_credentials-IsFiled scope (c ∷ credentials) m h =
    let key = key_of_credential c in
    let network = with_secrets c (unwrap_or (blank_network key) (Map.get key m)) in
    let own = key_of-with_secrets c key (Map.get key m) (λ n. get-key_of key m n h) in
    let added = Map.insert key network m in
    add_credentials-IsFiled scope credentials (if scope c then added else m)
      (choose-IsFiled (scope c) added m (λ _. insert-IsFiled key network m own h) (λ _. h))

In-values :
    (k : ProfileKey) (n : KnownNetwork) (m : List (ProfileKey × KnownNetwork))
    → Map.get k m ≡ some n
    → In n (Map.values m)
unfolding Map.get Map.values
In-values k n [] e = cc
In-values k n ((j, o) ∷ m) e = elim (Bool-cases (j === k)) [
  | inl same ↦ (let found : o ≡ n = some_inj (ground arith) in inl (sym found))
  | inr other ↦ inr (In-values k n m (ground arith))
]

get-values :
    (n : KnownNetwork) (m : List (ProfileKey × KnownNetwork))
    → IsFiled m
    → In n (Map.values m)
    → Map.get (key_of n) m ≡ some n
unfolding Map.get Map.values
get-values n [] h i = elim i [ ]
get-values n ((j, o) ∷ m) (own, once, more) (inl e) =
    let here : j ≡ key_of n = sym (ap key_of e ∙ own) in ground (arith, here, e)
get-values n ((j, o) ∷ m) (own, once, more) (inr i) =
    let found = get-values n m more i in
    elim (Bool-cases (j === key_of n)) [
      | inl same ↦ (let here = same_key j (key_of n) same in cc)
      | inr other ↦ ground (arith, found)
    ]

-- Sorting keeps the networks.
put_by :
    (o : Ordering) (n x m : KnownNetwork) (rest ms : List KnownNetwork)
    → (In n rest ↔ ((n ≡ x) ⊎ In n ms))
    → In n (elim o [ Ordering.lt ↦ m ∷ rest | Ordering.eq ↦ x ∷ m ∷ ms | Ordering.gt ↦ x ∷ m ∷ ms ])
      ↔ ((n ≡ x) ⊎ In n (m ∷ ms))
put_by Ordering.lt n x m rest ms (to, from) = (
  λ i. elim i [ inl e ↦ inr (inl e) | inr j ↦ elim (to j) [ inl e ↦ inl e | inr k ↦ inr (inr k) ] ],
  λ i. elim i [
    | inl e ↦ inr (from (inl e))
    | inr j ↦ elim j [ inl e ↦ inl e | inr k ↦ inr (from (inr k)) ]
  ],
)
put_by Ordering.eq n x m rest ms h = (λ i. i, λ i. i)
put_by Ordering.gt n x m rest ms h = (λ i. i, λ i. i)

In-put_sorted :
    (n x : KnownNetwork) (ms : List KnownNetwork) → In n (put_sorted x ms) ↔ ((n ≡ x) ⊎ In n ms)
unfolding put_sorted
In-put_sorted n x [] = (λ i. i, λ i. i)
In-put_sorted n x (m ∷ ms) =
    put_by (compare_networks m x) n x m (put_sorted x ms) ms (In-put_sorted n x ms)

In-sort_networks : (n : KnownNetwork) (ms : List KnownNetwork) → In n (sort_networks ms) ↔ In n ms
unfolding sort_networks
In-sort_networks n [] = (λ i. i, λ i. i)
In-sort_networks n (m ∷ ms) =
    let (put_to, put_from) = In-put_sorted n m (sort_networks ms) in
    let (to, from) = In-sort_networks n ms in
    (
      λ i. elim (put_to i) [ inl e ↦ inl e | inr j ↦ inr (to j) ],
      λ i. elim i [ inl e ↦ put_from (inl e) | inr j ↦ put_from (inr (from j)) ],
    )

-- A network is loaded for an interface if and only if it is what its key has in the scope of the
-- interface: the last entry of config.toml with this SSID, BSSID and security, or without one a network
-- with default settings, with the secrets of the last such credential.
pub persisted_networks_lem :
    (config : DaemonConfig) (credentials : List Credential) (mac : Option ℕ) (n : KnownNetwork)
    → In n (persisted_networks config credentials mac)
      ↔ (expected config credentials mac (key_of n) ≡ some n)
unfolding persisted_networks profiles
persisted_networks_lem config credentials mac n =
    let m = profiles config credentials mac in
    let filed =
      add_credentials-IsFiled (credential_in_scope credentials mac) credentials
        (add_configs (config_in_scope config mac) config.networks [])
        (add_configs-IsFiled (config_in_scope config mac) config.networks [] tt) in
    let (to, from) = In-sort_networks n (Map.values m) in
    let at_key = get-profiles config credentials mac (key_of n) in
    (
      λ i. sym at_key ∙ get-values n m filed (to i),
      λ e. from (In-values (key_of n) n m (at_key ∙ e)),
    )
