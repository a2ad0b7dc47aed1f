-- ===== src/Interface/Manager/Persist/Stored.antt =====
-- What network-daemon/src/interface/mod.rs finds in `config.toml` after it wrote to it.
use Prim.Native.String.{String}
use network_daemon.Prelude.{
  ◌≡◌, refl, none, some, List, [], ◌∷◌, true, Result, ok, err, In, string_key, ◌===◌, if◌then◌else◌,
  arith,
}
use network_daemon.Prelude.Map
use network_daemon.Config.{
  DaemonConfig, InterfaceConfig, ConfigError, default_config, default_interface,
}
use network_daemon.Interface.Link.{LinkOptions}
use network_daemon.Interface.Machine.{Machine}
use network_daemon.Interface.Manager.{InterfaceManager}
use network_daemon.Interface.Manager.Restore.{creations}
use network_daemon.Interface.Manager.Persist.{
  entry_or_default, set_creation, has_creation, load_or_default, persist_creation,
  remove_persisted_creation,
}

-- A configuration that is saved is the one that is loaded next: the text form is read back as it was
-- written, and the file is replaced by a renaming.
abbrev pub SavesBack : Machine → Type 0
SavesBack m =
    (config : DaemonConfig) (s : m.State) (u : Unit)
    → (m.save config s).0 ≡ ok u
    → m.load (m.save config s).1 ≡ ok config

-- The configuration that a method starts from.
abbrev pub starting : Result ConfigError DaemonConfig → DaemonConfig
starting (ok config) = config
starting (err _) = default_config

-- The settings of an interface, with the default ones if it has none.
abbrev pub settings : String → DaemonConfig → InterfaceConfig
settings name config = elim (Map.get name config.interfaces) [
  | none ↦ default_interface
  | some i ↦ i
]

get-entry_or_default :
    (name n : String) (f : InterfaceConfig → InterfaceConfig) (config : DaemonConfig)
    → Map.get n (entry_or_default name f config).interfaces
      ≡ (if name === n then some (f (settings name config)) else Map.get n config.interfaces)
unfolding entry_or_default
get-entry_or_default name n f config =
    Map.get-insert n name (f (settings name config)) config.interfaces

-- The settings of an interface that create a link are among the links to restore.
In-creations :
    (name : String) (options : LinkOptions) (i : InterfaceConfig)
    (l : List (String × InterfaceConfig))
    → Map.get name l ≡ some i
    → i.creation ≡ some options
    → In (name, options) (creations l)
unfolding creations Map.get
In-creations name options i [] e c = absurd cc
In-creations name options i ((n, j) ∷ l) e c = ground (arith, In-creations name options i l)

module _ (m : Machine) (saves : SavesBack m) where
  saved_creation :
      (name : String) (creation : LinkOptions) (self : InterfaceManager) (s : m.State)
      → (persist_creation m name creation self s).0 ≡ ok tt
      → m.load (persist_creation m name creation self s).2
        ≡ ok (entry_or_default name (set_creation (some creation)) (starting (m.load s)))
  unfolding persist_creation load_or_default
  saved_creation name creation self s h =
      let config = entry_or_default name (set_creation (some creation)) (starting (m.load s)) in
      ground (arith, h, saves config s tt)

  -- A creation that is persisted is found in the configuration that is loaded next, where it is among
  -- the links to restore, and the other settings, of this interface and of the others, are as before.
  persist_creation_lem :
      (name : String) (creation : LinkOptions) (self : InterfaceManager) (s : m.State)
      → (persist_creation m name creation self s).0 ≡ ok tt
      → let config = starting (m.load s) in
        (config' : DaemonConfig) × (m.load (persist_creation m name creation self s).2 ≡ ok config')
        × In (name, creation) (creations config'.interfaces)
        × (config'.networks ≡ config.networks)
        × ((n : String)
            → Map.get n config'.interfaces ≡ (
                if name === n
                then some (set_creation (some creation) (settings name config))
                else Map.get n config.interfaces))
  unfolding entry_or_default
  persist_creation_lem name creation self s h =
      let config = starting (m.load s) in
      let config' = entry_or_default name (set_creation (some creation)) config in
      let entry = set_creation (some creation) (settings name config) in
      let at = λ (n : String). get-entry_or_default name n (set_creation (some creation)) config in
      (
        config',
        saved_creation name creation self s h,
        In-creations name creation entry config'.interfaces (ground (arith, at name)) refl,
        refl,
        at,
      )

  removed_creation :
      (name : String) (self : InterfaceManager) (s : m.State) (config : DaemonConfig)
      → m.load s ≡ ok config
      → (remove_persisted_creation m name self s).0 ≡ ok tt
      → m.load (remove_persisted_creation m name self s).2
        ≡ ok (
            if has_creation name config
            then entry_or_default name (set_creation none) config
            else config)
  unfolding remove_persisted_creation
  removed_creation name self s config e h =
      ground (arith, e, h, saves (entry_or_default name (set_creation none) config) s tt)

  -- Persisting a creation and removing it again gives the interface the settings that it had, or the
  -- default ones, without a creation, and leaves all else in the configuration as it was.
  pub remove_persisted_creation-persist_creation :
      (name : String) (creation : LinkOptions) (self : InterfaceManager) (s : m.State)
      → (persist_creation m name creation self s).0 ≡ ok tt
      → let s' = (persist_creation m name creation self s).2 in
        (remove_persisted_creation m name self s').0 ≡ ok tt
        → let config = starting (m.load s) in
          (config' : DaemonConfig) × (m.load (remove_persisted_creation m name self s').2
            ≡ ok config')
          × (config'.networks ≡ config.networks)
          × ((n : String)
              → Map.get n config'.interfaces ≡ (
                  if name === n
                  then some (set_creation none (settings name config))
                  else Map.get n config.interfaces))
  unfolding entry_or_default has_creation
  remove_persisted_creation-persist_creation name creation self s h h' =
      let config = starting (m.load s) in
      let s' = (persist_creation m name creation self s).2 in
      let with_creation = entry_or_default name (set_creation (some creation)) config in
      let without = entry_or_default name (set_creation none) with_creation in
      let at = λ (n : String). get-entry_or_default name n (set_creation (some creation)) config in
      let at' = λ (n : String). get-entry_or_default name n (set_creation none) with_creation in
      let created : has_creation name with_creation ≡ true = ground (arith, at name) in
      let loaded =
        removed_creation name self s' with_creation (saved_creation name creation self s h) h' in
      (without, ground (arith, loaded, created), refl, λ n. ground (arith, at n, at name, at' n))
