-- ===== src/Interface/Table.antt =====
-- network-daemon/src/interface/table.rs: the interfaces by name, with an index for each other key.
pub mod Indexed
pub mod Laws
pub mod Lists
pub mod Clashes
pub mod Kept
mod Tests
use Prim.Native.String.{String}
use network_daemon.Prelude.{
  ℕ, Bool, true, false, Option, none, some, List, [], ◌∷◌, ℕ_key, string_key, ◌===◌, if◌then◌else◌,
  length,
}
use network_daemon.Prelude.Map
use network_daemon.Prelude.Set
use network_daemon.Interface.Info.{
  InterfaceInfo, InterfaceType, ConnectionState, InterfaceType_key, ConnectionState_key,
}

pub record InterfaceTable : Type 0 where
  pub interfaces : List (String × InterfaceInfo)
  pub index_to_name : List (ℕ × String)
  pub name_to_index : List (String × ℕ)
  pub by_type : List (InterfaceType × List String)
  pub by_parent : List (String × List String)
  pub by_state : List (ConnectionState × List String)

abbrev pub empty : InterfaceTable
empty = record {
  interfaces = [];
  index_to_name = [];
  name_to_index = [];
  by_type = [];
  by_parent = [];
  by_state = [];
}

-- `insert`: the name that the index had, if it is another one, loses its index.
unfoldable pub drop_old_name : Option String → String → List (String × ℕ) → List (String × ℕ)
drop_old_name none name name_to_index = name_to_index
drop_old_name (some old_name) name name_to_index =
    if old_name === name then name_to_index else Map.remove old_name name_to_index

-- `insert`: the index that the name had, if it is another one, loses its name.
unfoldable pub drop_old_index : Option ℕ → ℕ → List (ℕ × String) → List (ℕ × String)
drop_old_index none index index_to_name = index_to_name
drop_old_index (some old_index) index index_to_name =
    if old_index === index then index_to_name else Map.remove old_index index_to_name

unfoldable pub insert_parent :
    Option String → String → List (String × List String) → List (String × List String)
insert_parent none name by_parent = by_parent
insert_parent (some parent) name by_parent = Map.entry_insert parent name by_parent

unfoldable pub remove_parent :
    Option String → String → List (String × List String) → List (String × List String)
remove_parent none name by_parent = by_parent
remove_parent (some parent) name by_parent = Map.entry_remove parent name by_parent

unfoldable pub insert : InterfaceTable → InterfaceInfo → InterfaceTable
unfolding drop_old_name drop_old_index insert_parent
insert self info =
    let name = info.name in
    let index = info.id in
    let names = drop_old_name (Map.get index self.index_to_name) name self.name_to_index in
    let indices = drop_old_index (Map.get name names) index self.index_to_name in
    record {
      interfaces = Map.insert name info self.interfaces;
      index_to_name = Map.insert index name indices;
      name_to_index = Map.insert name index names;
      by_type = Map.entry_insert info.interface_type name self.by_type;
      by_parent = insert_parent info.parent name self.by_parent;
      by_state = Map.entry_insert info.state name self.by_state;
    }

unfoldable pub remove : InterfaceTable → String → InterfaceTable × Option InterfaceInfo
unfolding remove_parent
remove self name = elim (Map.get name self.interfaces) [
  | none ↦ (self, none)
  | some info ↦ (
    record {
      interfaces = Map.remove name self.interfaces;
      index_to_name = Map.remove info.id self.index_to_name;
      name_to_index = Map.remove name self.name_to_index;
      by_type = Map.entry_remove info.interface_type name self.by_type;
      by_parent = remove_parent info.parent name self.by_parent;
      by_state = Map.entry_remove info.state name self.by_state;
    },
    some info,
  )
]

unfoldable pub update : InterfaceTable → InterfaceInfo → InterfaceTable × Option InterfaceInfo
update self info = let (removed, old) = remove self info.name in (insert removed info, old)

unfoldable pub get : InterfaceTable → String → Option InterfaceInfo
get self name = Map.get name self.interfaces

unfoldable pub get_by_index : InterfaceTable → ℕ → Option InterfaceInfo
get_by_index self index = elim (Map.get index self.index_to_name) [
  | none ↦ none
  | some name ↦ Map.get name self.interfaces
]

unfoldable pub get_index : InterfaceTable → String → Option ℕ
get_index self name = Map.get name self.name_to_index

unfoldable pub contains : InterfaceTable → String → Bool
contains self name = elim (Map.get name self.interfaces) [ none ↦ false | some _ ↦ true ]

unfoldable pub contains_index : InterfaceTable → ℕ → Bool
contains_index self index = elim (Map.get index self.index_to_name) [ none ↦ false | some _ ↦ true ]

unfoldable pub all : InterfaceTable → List InterfaceInfo
all self = Map.values self.interfaces

-- The infos of a set of names, without the names that are not in the table.
unfoldable pub infos_of : List (String × InterfaceInfo) → List String → List InterfaceInfo
infos_of interfaces [] = []
infos_of interfaces (name ∷ names) =
    let rest = infos_of interfaces names in
    elim (Map.get name interfaces) [ none ↦ rest | some info ↦ info ∷ rest ]

unfoldable pub list_by_type : InterfaceTable → InterfaceType → List InterfaceInfo
unfolding infos_of
list_by_type self interface_type = elim (Map.get interface_type self.by_type) [
  | none ↦ []
  | some names ↦ infos_of self.interfaces names
]

unfoldable pub list_by_parent : InterfaceTable → String → List InterfaceInfo
unfolding infos_of
list_by_parent self parent = elim (Map.get parent self.by_parent) [
  | none ↦ []
  | some names ↦ infos_of self.interfaces names
]

unfoldable pub list_by_state : InterfaceTable → ConnectionState → List InterfaceInfo
unfolding infos_of
list_by_state self state = elim (Map.get state self.by_state) [
  | none ↦ []
  | some names ↦ infos_of self.interfaces names
]

unfoldable pub clear : InterfaceTable → InterfaceTable
clear self = empty

unfoldable pub len : InterfaceTable → ℕ
len self = length self.interfaces

unfoldable pub is_empty : InterfaceTable → Bool
is_empty self = Set.is_empty self.interfaces
