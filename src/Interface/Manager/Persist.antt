-- ===== src/Interface/Manager/Persist.antt =====
-- network-daemon/src/interface/mod.rs: what the manager writes to `config.toml`.
pub mod Stored
use Prim.Native.String.{String}
use network_daemon.Prelude.{
  Option, none, some, List, [], ◌∷◌, Bool, true, false, ◌||◌, if◌then◌else◌, Result, ok, err,
  string_key,
}
use network_daemon.Prelude.Map
use network_daemon.Config.{
  DaemonConfig, InterfaceConfig, ConfigError, default_config, default_interface,
}
use network_daemon.Interface.Link.{LinkOptions, Modification}
use network_daemon.Interface.Machine.{Machine}
use network_daemon.Interface.Manager.{
  InterfaceManager, Action, Error, Message, other, load_failed, persist_failed,
  persist_deletion_failed, persist_policy_failed, lift, pure, raise, ◌>>=◌, ◌>>◌,
}

-- `config.interface.entry(name).or_default()`, changed by a function.
unfoldable pub entry_or_default :
    String → (InterfaceConfig → InterfaceConfig) → DaemonConfig → DaemonConfig
entry_or_default name f config = record config {
  interfaces =
      Map.insert name
        (f (elim (Map.get name config.interfaces) [ none ↦ default_interface | some i ↦ i ]))
        config.interfaces;
}

abbrev pub set_creation : Option LinkOptions → InterfaceConfig → InterfaceConfig
set_creation creation i = record i { creation = creation }

-- The value that a modification puts in place, if it is a replacement.
unfoldable pub replacement : Modification Bool → Option Bool
replacement (Modification.replace value) = some value
replacement _ = none

unfoldable pub set_policy : Option Bool → Option Bool → InterfaceConfig → InterfaceConfig
set_policy slaac dhcpv4 i =
    let i' : InterfaceConfig = elim slaac [ none ↦ i | some value ↦ record i { slaac = value } ] in
    elim dhcpv4 [ none ↦ i' | some value ↦ record i' { dhcpv4 = value } ]

-- Whether the entry of a name creates a link: `changed` of `remove_persisted_creation`.
unfoldable pub has_creation : String → DaemonConfig → Bool
has_creation name config = elim (Map.get name config.interfaces) [
  | none ↦ false
  | some i ↦ elim i.creation [ none ↦ false | some _ ↦ true ]
]

unfoldable pub is_some {ℓ} : {A : Type ℓ} → Option A → Bool
is_some none = false
is_some (some _) = true

module _ (m : Machine) where
  -- The configuration, or the default one if there is no file.
  unfoldable pub load_or_default : Action m.State (Error m) DaemonConfig
  load_or_default self s = elim (m.load s) [
    | ok config ↦ (ok config, self, s)
    | err (ConfigError.not_found) ↦ (ok default_config, self, s)
    | err e ↦ (err (other (load_failed e)), self, s)
  ]

  unfoldable pub persist_creation : String → LinkOptions → Action m.State (Error m) (Unit {0})
  unfolding load_or_default entry_or_default
  persist_creation name creation = do
    config ← load_or_default
    lift (λ e. other (persist_failed name e))
        (m.save (entry_or_default name (set_creation (some creation)) config))

  unfoldable pub remove_persisted_creation : String → Action m.State (Error m) (Unit {0})
  unfolding has_creation entry_or_default
  remove_persisted_creation name self s = elim (m.load s) [
    | err (ConfigError.not_found) ↦ (ok tt, self, s)
    | err e ↦ (err (other (load_failed e)), self, s)
    | ok config ↦
        let config' = entry_or_default name (set_creation none) config in
        if has_creation name config
        then lift (λ e. other (persist_deletion_failed name e)) (m.save config') self s
        else (ok tt, self, s)
  ]

  unfoldable pub persist_policy :
      String → Modification Bool → Modification Bool → Action m.State (Error m) (Unit {0})
  unfolding load_or_default entry_or_default replacement set_policy is_some
  persist_policy name slaac dhcpv4 =
      let save : Action m.State (Error m) (Unit {0}) = (do
        config ← load_or_default
        lift (λ e. other (persist_policy_failed name e))
            (m.save (
              entry_or_default name (set_policy (replacement slaac) (replacement dhcpv4))
                config))) in
      if is_some (replacement slaac) || is_some (replacement dhcpv4) then save else pure tt
