-- ===== src/Interface/Manager/Restore.antt =====
-- network-daemon/src/interface/mod.rs: what a refresh restores from `config.toml`: the policies of the
-- interfaces, the logical links that were configured, and a WLAN interface for each wireless device. The
-- order in which a map is iterated is the one of its list.
pub mod Rounds
pub mod Names
use Prim.Native.String.{String, ◌++◌}
use network_daemon.Prelude.{
  ℕ, zero, suc, ◌+◌, Option, none, some, List, [], ◌∷◌, map, Bool, true, false, ◌&&◌, ◌||◌, not,
  if◌then◌else◌, Result, ok, err, string_key, length, Key,
}
use network_daemon.Prelude.Map
use network_daemon.Prelude.Set
use network_daemon.Prelude.Decimal.{decimal}
use network_daemon.Ip.{unwrap_or}
use network_daemon.Config.{DaemonConfig, InterfaceConfig, ConfigError, default_config}
use network_daemon.Interface.Info.{InterfaceInfo, is_wlan}
use network_daemon.Interface.Link.{LinkOptions, default_wlan}
use network_daemon.Interface.Machine.{Machine}

-- Equality of `bool`.
abbrev pub same_bool : Bool → Bool → Bool
same_bool true b = b
same_bool false b = not b

-- The names of a list of interfaces, as a set.
unfoldable pub names_of : List InterfaceInfo → List String
names_of [] = []
names_of (interface ∷ interfaces) = Set.insert interface.name (names_of interfaces)

-- The entries of the configuration that create a link.
unfoldable pub creations : List (String × InterfaceConfig) → List (String × LinkOptions)
creations [] = []
creations ((name, interface_config) ∷ l) = elim interface_config.creation [
  | none ↦ creations l
  | some options ↦ (name, options) ∷ creations l
]

-- `existing_parents` of `create_auto_wlans`.
unfoldable pub existing_parents : List InterfaceInfo → List String
existing_parents [] = []
existing_parents (interface ∷ interfaces) =
    let rest = existing_parents interfaces in
    if is_wlan interface
    then elim interface.parent [ none ↦ rest | some parent ↦ Set.insert parent rest ]
    else rest

-- `configured_wlan_parents` of `create_auto_wlans`.
unfoldable pub configured_wlan_parents : List (String × LinkOptions) → List String
configured_wlan_parents [] = []
configured_wlan_parents ((name, LinkOptions.wlan parent options) ∷ l) =
    Set.insert parent (configured_wlan_parents l)
configured_wlan_parents ((name, LinkOptions.bridge members) ∷ l) = configured_wlan_parents l
configured_wlan_parents ((name, LinkOptions.lagg protocol members) ∷ l) = configured_wlan_parents l
configured_wlan_parents ((name, LinkOptions.vlan parent tag) ∷ l) = configured_wlan_parents l

-- The tests of `create_auto_wlans` that pass a device over.
unfoldable pub is_skipped : List String → List String → Option InterfaceConfig → String → Bool
is_skipped existing configured interface_config parent =
    if Set.contains parent existing || Set.contains parent configured
    then true
    else elim interface_config [
      | none ↦ false
      | some policy ↦ not policy.create_wlan || elim policy.wlan [ none ↦ false | some _ ↦ true ]
    ]

abbrev pub wlan_name : ℕ → String
wlan_name n = "wlan" ++ decimal n

-- The loop that finds a free name: the name, and the index after it.
unfoldable pub free_name : ℕ → ℕ → List String → Option (String × ℕ)
free_name zero next_index names = none
free_name (suc fuel) next_index names =
    let rest = free_name fuel (next_index + 1) names in
    if Set.contains (wlan_name next_index) names
    then rest
    else some (wlan_name next_index, next_index + 1)

-- What a pass over the pending links leaves.
pub record Pass : Type 0 where
  pub deferred : List (String × LinkOptions)
  pub names : List String
  pub progress : Bool

module _ (m : Machine) where
  -- The body of the loop of `apply_saved_policies`.
  unfoldable pub apply_policy :
      Option InterfaceConfig → InterfaceInfo → m.State → InterfaceInfo × m.State
  apply_policy none interface s = (interface, s)
  apply_policy (some policy) interface s =
      let interface' = record interface { dhcpv4_enabled = policy.dhcpv4 } in
      let (r, s') = m.set_slaac_state interface.name policy.slaac s in
      if same_bool interface.slaac_enabled policy.slaac then (interface', s) else elim r [
        | ok _ ↦ (record interface' { slaac_enabled = policy.slaac }, s')
        | err _ ↦ (interface', s')
      ]

  unfoldable pub apply_policies :
      DaemonConfig → List InterfaceInfo → m.State → List InterfaceInfo × m.State
  unfolding apply_policy
  apply_policies config [] s = ([], s)
  apply_policies config (interface ∷ interfaces) s =
      let (interface', s') = apply_policy (Map.get interface.name config.interfaces) interface s in
      let (rest, s'') = apply_policies config interfaces s' in (interface' ∷ rest, s'')

  unfoldable pub apply_saved_policies : List InterfaceInfo → m.State → List InterfaceInfo × m.State
  unfolding apply_policies
  apply_saved_policies interfaces s = elim (m.load s) [
    | ok config ↦ apply_policies config interfaces s
    | err _ ↦ (interfaces, s)
  ]

  -- A pass of the loop of `create_configured_links`.
  unfoldable pub create_pass : List (String × LinkOptions) → List String → m.State → Pass × m.State
  create_pass [] names s = (record { deferred = []; names = names; progress = false }, s)
  create_pass ((name, options) ∷ pending) names s =
      let (r, s') = m.create_link name options s in
      let created = create_pass pending (Set.insert name names) s' in
      let failed = create_pass pending names s' in
      if Set.contains name names then create_pass pending names s else elim r [
        | ok _ ↦ (record created.0 { progress = true }, created.1)
        | err _ ↦ (record failed.0 { deferred = (name, options) ∷ failed.0.deferred }, failed.1)
      ]

  -- The loop, on fuel.
  unfoldable pub create_links :
      ℕ → List (String × LinkOptions) → List String → Bool → m.State → Option (Bool × m.State)
  unfolding create_pass
  create_links zero pending names created s = none
  create_links (suc fuel) pending names created s =
      let (pass, s') = create_pass pending names s in
      let created' = created || pass.progress in
      elim (Set.is_empty pass.deferred || not pass.progress) [
        | true ↦ some (created', s')
        | false ↦ create_links fuel pass.deferred pass.names created' s'
      ]

  unfoldable pub create_configured_links : List InterfaceInfo → m.State → Bool × m.State
  unfolding names_of creations create_links
  create_configured_links interfaces s = elim (m.load s) [
    | ok config ↦
        let pending = creations config.interfaces in
        unwrap_or (false, s)
          (create_links (length pending + 1) pending (names_of interfaces) false s)
    | err _ ↦ (false, s)
  ]

  -- The loop of `create_auto_wlans` over the devices: whether a link was created.
  unfoldable pub create_wlans :
      DaemonConfig
      → List String
      → List String
      → List String
      → List String
      → ℕ
      → Bool
      → m.State
      → Bool × m.State
  unfolding is_skipped free_name
  create_wlans config existing configured [] names next_index created s = (created, s)
  create_wlans config existing configured (parent ∷ devices) names next_index created s =
      let (name, next) =
        unwrap_or (wlan_name next_index, next_index + 1)
          (free_name (length names + 1) next_index names) in
      let (r, s') = m.create_link name (LinkOptions.wlan parent default_wlan) s in
      let created' : Bool = elim r [ ok _ ↦ true | err _ ↦ created ] in
      let skipped = create_wlans config existing configured devices names next_index created s in
      let tried =
        create_wlans config existing configured devices (Set.insert name names) next created' s' in
      if is_skipped existing configured (Map.get parent config.interfaces) parent
      then skipped
      else tried

  -- `create_auto_wlans` with the configuration loaded.
  unfoldable pub auto_wlans : List InterfaceInfo → DaemonConfig → m.State → Bool × m.State
  unfolding existing_parents configured_wlan_parents creations names_of create_wlans
  auto_wlans interfaces config s =
      let (r, s') = m.wireless_devices s in
      elim r [
        | err _ ↦ (false, s')
        | ok devices ↦
            create_wlans config (existing_parents interfaces)
              (configured_wlan_parents (creations config.interfaces)) devices (names_of interfaces)
              0 false s'
      ]

  unfoldable pub create_auto_wlans : List InterfaceInfo → m.State → Bool × m.State
  unfolding auto_wlans
  create_auto_wlans interfaces s = elim (m.load s) [
    | ok config ↦ auto_wlans interfaces config s
    | err (ConfigError.not_found) ↦ auto_wlans interfaces default_config s
    | err _ ↦ (false, s)
  ]
