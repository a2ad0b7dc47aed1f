-- ===== src/Interface/Table/Clashes.antt =====
-- What `insert` of network-daemon/src/interface/table.rs does to an interface whose name or index is
-- taken, and the loop that fills the table anew.
use Prim.Native.String.{String}
use network_daemon.Prelude.{
  ◌≡◌, ◌≢◌, refl, true, Option, none, some, List, [], ◌∷◌, ℕ_key, string_key, ◌===◌, if◌then◌else◌,
  arith,
}
use network_daemon.Prelude.Map
use network_daemon.Prelude.Map.{has}
use network_daemon.Prelude.Set
use network_daemon.Interface.Info.{InterfaceInfo, InterfaceType_key, ConnectionState_key}
use network_daemon.Interface.Table.{
  InterfaceTable, empty, insert, remove, get, get_by_index, drop_old_name, drop_old_index,
}
use network_daemon.Interface.Table.Indexed.{IsIndexed, IsFree, insert_absent}

-- Inserting an interface under a name that is in the table leaves the name in the index of the
-- former state.
insert_keeps_old_state :
    (t : InterfaceTable) (old info : InterfaceInfo)
    → IsIndexed t
    → get t info.name ≡ some old
    → has old.state info.name (insert t info).by_state ≡ true
unfolding insert get
insert_keeps_old_state t old info h e = ground (
  arith,
  Map.has-entry_insert old.state info.state info.name info.name t.by_state,
  h.states info.name old.state,
  e,
)

get-insert :
    (t : InterfaceTable) (info : InterfaceInfo) (n : String)
    → get (insert t info) n ≡ (if info.name === n then some info else get t n)
unfolding insert get
get-insert t info n = Map.get-insert n info.name info t.interfaces

get_by_index-insert :
    (t : InterfaceTable) (info : InterfaceInfo) → get_by_index (insert t info) info.id ≡ some info
unfolding insert get_by_index
get_by_index-insert t info =
    let names = drop_old_name (Map.get info.id t.index_to_name) info.name t.name_to_index in
    let indices = drop_old_index (Map.get info.name names) info.id t.index_to_name in
    ground (
      arith,
      Map.get-insert info.id info.id info.name indices,
      Map.get-insert info.name info.name info t.interfaces,
    )

get-remove :
    (t : InterfaceTable) (name n : String)
    → get (remove t name).0 n ≡ (if name === n then none else get t n)
unfolding remove get
get-remove t name n = ground (arith, Map.get-remove n name t.interfaces)

get_by_index-remove :
    (t : InterfaceTable) (name : String) (info : InterfaceInfo)
    → get t name ≡ some info
    → get_by_index (remove t name).0 info.id ≡ none
unfolding remove get get_by_index
get_by_index-remove t name info e =
    ground (arith, e, Map.get-remove info.id info.id t.index_to_name)

-- Inserting an interface of another name at an index that an interface a has, and then removing a,
-- leaves the new interface in the table with no way to find it by its index.
pub remove-insert_loses_index :
    (t : InterfaceTable) (a info : InterfaceInfo)
    → get t a.name ≡ some a
    → a.id ≡ info.id
    → a.name ≢ info.name
    → (get_by_index (insert t info) info.id ≡ some info)
      × (get (remove (insert t info) a.name).0 info.name ≡ some info)
      × (get_by_index (remove (insert t info) a.name).0 info.id ≡ none)
remove-insert_loses_index t a info e same other =
    let t' = insert t info in
    let at_a : get t' a.name ≡ some a = ground (arith, get-insert t info a.name) in
    (
      get_by_index-insert t info,
      ground (arith, get-remove t' a.name info.name, get-insert t info info.name),
      rw same at (get_by_index-remove t' a.name a at_a),
    )

-- The loop of `refresh_interfaces` over the interfaces that the kernel reports.
unfoldable pub insert_all : InterfaceTable → List InterfaceInfo → InterfaceTable
insert_all t [] = t
insert_all t (info ∷ infos) = insert_all (insert t info) infos

-- Interfaces of which no two share a name or an index.
abbrev pub Apart : InterfaceInfo → List InterfaceInfo → Type 0
Apart a [] = Unit
Apart a (b ∷ l) = (a.name ≢ b.name) × (a.id ≢ b.id) × Apart a l

abbrev pub AllApart : List InterfaceInfo → Type 0
AllApart [] = Unit
AllApart (a ∷ l) = Apart a l × AllApart l

-- Nothing of a list clashes with the table.
abbrev New : InterfaceTable → List InterfaceInfo → Type 0
New t [] = Unit
New t (a ∷ l) = (get t a.name ≡ none) × IsFree a.id a.name t × New t l

New-insert :
    (t : InterfaceTable) (a : InterfaceInfo) (l : List InterfaceInfo)
    → Apart a l
    → New t l
    → New (insert t a) l
unfolding get
New-insert t a [] _ _ = tt
New-insert t a (b ∷ l) (name, id, apart) (absent, free, new) = (
  ground (arith, get-insert t a b.name),
  λ n p. ground (arith, get-insert t a n, free n p),
  New-insert t a l apart new,
)

insert_all-New :
    (t : InterfaceTable) (l : List InterfaceInfo)
    → IsIndexed t
    → AllApart l
    → New t l
    → IsIndexed (insert_all t l)
unfolding insert_all get
insert_all-New t [] h _ _ = h
insert_all-New t (a ∷ l) h (apart, rest) (absent, free, new) =
    insert_all-New (insert t a) l (insert_absent t h a absent free) rest
      (New-insert t a l apart new)

New-empty : (l : List InterfaceInfo) → New empty l
unfolding get Map.get
New-empty [] = tt
New-empty (a ∷ l) = (refl, λ n p. refl, New-empty l)

empty-IsIndexed : IsIndexed empty
unfolding Map.get Map.set_or_default Set.contains
empty-IsIndexed = record {
  named = λ n info e. cc;
  indices = λ n i. refl;
  names = λ n i. refl;
  types = λ n k. refl;
  parents = λ n p. refl;
  states = λ n k. refl;
}

-- The interface of a name in a list.
abbrev pub named_in : String → List InterfaceInfo → Option InterfaceInfo
named_in n [] = none
named_in n (a ∷ l) = if a.name === n then some a else named_in n l

pub Apart-named_in :
    (a : InterfaceInfo) (l : List InterfaceInfo) → Apart a l → named_in a.name l ≡ none
Apart-named_in a [] _ = refl
Apart-named_in a (b ∷ l) (name, id, apart) = ground (arith, Apart-named_in a l apart)

get-insert_all :
    (t : InterfaceTable) (l : List InterfaceInfo) (n : String)
    → AllApart l
    → get (insert_all t l) n ≡ elim (named_in n l) [ none ↦ get t n | some a ↦ some a ]
unfolding insert_all
get-insert_all t [] n _ = refl
get-insert_all t (a ∷ l) n (apart, rest) =
    ground (arith, get-insert_all (insert t a) l n rest, get-insert t a n, Apart-named_in a l apart)

-- Filling an empty table with interfaces of which no two share a name or an index gives a
-- well-formed table that holds each of them under its name, and nothing else.
pub insert_all-empty :
    (l : List InterfaceInfo)
    → AllApart l
    → IsIndexed (insert_all empty l) × ((n : String) → get (insert_all empty l) n ≡ named_in n l)
unfolding get Map.get
insert_all-empty l apart = (
  insert_all-New empty l empty-IsIndexed apart (New-empty l),
  λ n. ground (arith, get-insert_all empty l n apart),
)
