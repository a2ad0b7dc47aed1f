-- ===== src/Interface/Table/Lists.antt =====
-- The lists of network-daemon/src/interface/table.rs by type, parent and state.
use Prim.Native.String.{String}
use network_daemon.Prelude.{
  ◌≡◌, ◌↔◌, sym, ap, ◌∙◌, Bool, true, Option, some, List, [], ◌∷◌, ℕ_key, string_key, Key, arith,
  inl, inr, Option-cases, In,
}
use network_daemon.Prelude.Map
use network_daemon.Prelude.Map.{has}
use network_daemon.Prelude.Set
use network_daemon.Interface.Info.{
  InterfaceInfo, InterfaceType, ConnectionState, InterfaceType_key, ConnectionState_key,
}
use network_daemon.Interface.Table.{
  InterfaceTable, get, infos_of, list_by_state, list_by_type, list_by_parent,
}
use network_daemon.Interface.Table.Indexed.{IsIndexed, has_state, has_type, has_parent}

-- The interfaces of a set of names are those that stand in the table under a name of the set.
In-infos_of_sound :
    (m : List (String × InterfaceInfo)) (names : List String) (info : InterfaceInfo)
    → In info (infos_of m names)
    → (n : String) × (Set.contains n names ≡ true) × (Map.get n m ≡ some info)
unfolding infos_of Set.contains
In-infos_of_sound m [] info e = elim e [ ]
In-infos_of_sound m (n ∷ names) info e = elim (Option-cases (Map.get n m)) [
  | inl miss ↦
      let (k, inside, found) = In-infos_of_sound m names info (rw (miss, infos_of) at e) in
      (k, ground (arith, inside), found)
  | inr (i, hit) ↦ elim (rw (hit, infos_of) at e) [
    | inl p ↦ (n, ground arith, hit ∙ ap some (sym p))
    | inr rest ↦
        let (k, inside, found) = In-infos_of_sound m names info rest in
        (k, ground (arith, inside), found)
  ]
]

In-infos_of_complete :
    (m : List (String × InterfaceInfo)) (names : List String) (n : String) (info : InterfaceInfo)
    → Set.contains n names ≡ true
    → Map.get n m ≡ some info
    → In info (infos_of m names)
unfolding infos_of Set.contains
In-infos_of_complete m [] n info e f = cc
In-infos_of_complete m (k ∷ names) n info e f = ground (arith, In-infos_of_complete m names n info)

-- The entry of an index map, looked up in the table.
abbrev listed :
    {K : Type 0}
    → ⦃key : Key K⦄ → K
    → List (K × List String)
    → List (String × InterfaceInfo)
    → List InterfaceInfo
listed k m interfaces = infos_of interfaces (Map.set_or_default (Map.get k m))

module _ {K : Type 0} ⦃key : Key K⦄ (k : K) (m : List (K × List String)) (t : InterfaceTable)
    (test : Option InterfaceInfo → Bool) (h : IsIndexed t)
    (exact : (n : String) → has k n m ≡ test (Map.get n t.interfaces)) where
  listed_sound :
      (info : InterfaceInfo)
      → In info (listed k m t.interfaces)
      → (Map.get info.name t.interfaces ≡ some info) × (test (some info) ≡ true)
  listed_sound info e =
      let (n, inside, found) = In-infos_of_sound t.interfaces _ info e in
      let own = h.named n info found in
      (ground (arith, own, found), ground (arith, exact n, inside, found))

  listed_complete :
      (info : InterfaceInfo)
      → Map.get info.name t.interfaces ≡ some info
      → test (some info) ≡ true
      → In info (listed k m t.interfaces)
  listed_complete info found passes =
      In-infos_of_complete t.interfaces _ info.name info (ground (arith, exact info.name)) found

list_by_state-listed :
    (t : InterfaceTable) (k : ConnectionState)
    → list_by_state t k ≡ listed k t.by_state t.interfaces
unfolding list_by_state infos_of Map.set_or_default
list_by_state-listed t k = ground arith

-- The list of a state on a well-formed table holds exactly the interfaces of the table in that state.
In-list_by_state_iff :
    (t : InterfaceTable) (k : ConnectionState) (info : InterfaceInfo)
    → IsIndexed t
    → In info (list_by_state t k) ↔ ((get t info.name ≡ some info) × (info.state ≡ k))
unfolding get
In-list_by_state_iff t k info h =
    let exact = λ (n : String). h.states n k in
    (
      λ e.
          let (found, passes) =
            listed_sound k t.by_state t (has_state k) h exact info (rw list_by_state-listed at e) in
          (found, ground (arith, passes)),
      λ e.
          rw list_by_state-listed
            (listed_complete k t.by_state t (has_state k) h exact info e.0 (ground arith)),
    )

list_by_type-listed :
    (t : InterfaceTable) (k : InterfaceType) → list_by_type t k ≡ listed k t.by_type t.interfaces
unfolding list_by_type infos_of Map.set_or_default
list_by_type-listed t k = ground arith

-- The list of a type on a well-formed table holds exactly the interfaces of the table of that type.
In-list_by_type_iff :
    (t : InterfaceTable) (k : InterfaceType) (info : InterfaceInfo)
    → IsIndexed t
    → In info (list_by_type t k) ↔ ((get t info.name ≡ some info) × (info.interface_type ≡ k))
unfolding get
In-list_by_type_iff t k info h =
    let exact = λ (n : String). h.types n k in
    (
      λ e.
          let (found, passes) =
            listed_sound k t.by_type t (has_type k) h exact info (rw list_by_type-listed at e) in
          (found, ground (arith, passes)),
      λ e.
          rw list_by_type-listed
            (listed_complete k t.by_type t (has_type k) h exact info e.0 (ground arith)),
    )

list_by_parent-listed :
    (t : InterfaceTable) (k : String) → list_by_parent t k ≡ listed k t.by_parent t.interfaces
unfolding list_by_parent infos_of Map.set_or_default
list_by_parent-listed t k = ground arith

-- The list of a parent on a well-formed table holds exactly the interfaces of the table with that parent.
In-list_by_parent_iff :
    (t : InterfaceTable) (k : String) (info : InterfaceInfo)
    → IsIndexed t
    → In info (list_by_parent t k) ↔ ((get t info.name ≡ some info) × (info.parent ≡ some k))
unfolding get
In-list_by_parent_iff t k info h =
    let exact = λ (n : String). h.parents n k in
    (
      λ e.
          let (found, passes) =
            listed_sound k t.by_parent t (has_parent k) h exact info
              (rw list_by_parent-listed at e) in
          (found, ground (arith, passes)),
      λ e.
          rw list_by_parent-listed
            (listed_complete k t.by_parent t (has_parent k) h exact info e.0 (ground arith)),
    )

-- The lists of a type, of a parent and of a state on a well-formed table hold exactly the interfaces of
-- the table of that type, with that parent and in that state.
In-lists_iff :
    (t : InterfaceTable) (kind : InterfaceType) (parent : String) (state : ConnectionState)
    (info : InterfaceInfo)
    → IsIndexed t
    → (In info (list_by_type t kind)
        ↔ ((get t info.name ≡ some info) × (info.interface_type ≡ kind)))
      × (In info (list_by_parent t parent)
          ↔ ((get t info.name ≡ some info) × (info.parent ≡ some parent)))
      × (In info (list_by_state t state) ↔ ((get t info.name ≡ some info) × (info.state ≡ state)))
In-lists_iff t kind parent state info h = (
  In-list_by_type_iff t kind info h,
  In-list_by_parent_iff t parent info h,
  In-list_by_state_iff t state info h,
)
