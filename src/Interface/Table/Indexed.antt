-- ===== src/Interface/Table/Indexed.antt =====
-- The indices of the table of network-daemon/src/interface/table.rs say what the interfaces are.
use Prim.Native.String.{String}
use network_daemon.Prelude.{
  ℕ, ◌≡◌, ◌≢◌, ◌⊎◌, refl, sym, ◌∙◌, Bool, true, false, ◌&&◌, Option, none, some, List, [], ◌∷◌,
  ℕ_key, string_key, ◌===◌, ◌=?◌, if◌then◌else◌, arith, inl, inr, Option-cases, String_discrete,
}
use network_daemon.Prelude.Map
use network_daemon.Prelude.Map.{has}
use network_daemon.Interface.Info.{
  InterfaceInfo, InterfaceType, ConnectionState, InterfaceType_key, ConnectionState_key,
}
use network_daemon.Interface.Table.{InterfaceTable, insert, insert_parent, remove_parent}

-- What the entries of the indices have to be for an interface, or for no interface.
abbrev pub has_index : ℕ → Option InterfaceInfo → Bool
has_index i none = false
has_index i (some info) = info.id === i

abbrev pub has_type : InterfaceType → Option InterfaceInfo → Bool
has_type k none = false
has_type k (some info) = info.interface_type === k

abbrev pub parent_is : String → Option String → Bool
parent_is p none = false
parent_is p (some q) = q === p

abbrev pub has_parent : String → Option InterfaceInfo → Bool
has_parent p none = false
has_parent p (some info) = parent_is p info.parent

abbrev pub has_state : ConnectionState → Option InterfaceInfo → Bool
has_state k none = false
has_state k (some info) = info.state === k

-- Whether an entry of a map is the given one.
abbrev pub is_entry {ℓ} : {V : Type ℓ} ⦃key : network_daemon.Prelude.Key V⦄ → V → Option V → Bool
is_entry v none = false
is_entry v (some w) = w === v

pub record IsIndexed (t : InterfaceTable) : Type 0 where
  pub named :
      (n : String) (info : InterfaceInfo) → Map.get n t.interfaces ≡ some info → info.name ≡ n
  pub indices :
      (n : String) (i : ℕ)
      → is_entry i (Map.get n t.name_to_index) ≡ has_index i (Map.get n t.interfaces)
  pub names :
      (n : String) (i : ℕ)
      → is_entry n (Map.get i t.index_to_name) ≡ has_index i (Map.get n t.interfaces)
  pub types :
      (n : String) (k : InterfaceType) → has k n t.by_type ≡ has_type k (Map.get n t.interfaces)
  pub parents : (n p : String) → has p n t.by_parent ≡ has_parent p (Map.get n t.interfaces)
  pub states :
      (n : String) (k : ConnectionState) → has k n t.by_state ≡ has_state k (Map.get n t.interfaces)

-- An index may be given to an interface if no other interface has it.
abbrev pub IsFree : ℕ → String → InterfaceTable → Type 0
IsFree i name t = (n : String) → n ≢ name → has_index i (Map.get n t.interfaces) ≡ false

pub has-remove_parent :
    (o : Option String) (p n name : String) (m : List (String × List String))
    → has p n (remove_parent o name m) ≡ (if parent_is p o && name === n then false else has p n m)
unfolding remove_parent
has-remove_parent none p n name m = ground arith
has-remove_parent (some q) p n name m = ground (arith, Map.has-entry_remove p q n name m)

pub has-insert_parent :
    (o : Option String) (p n name : String) (m : List (String × List String))
    → has p n (insert_parent o name m) ≡ (if parent_is p o && name === n then true else has p n m)
unfolding insert_parent
has-insert_parent none p n name m = ground arith
has-insert_parent (some q) p n name m = ground (arith, Map.has-entry_insert p q n name m)

module _ (t : InterfaceTable) (h : IsIndexed t) where
  pub remove_present :
      (name : String) (info : InterfaceInfo)
      → Map.get name t.interfaces ≡ some info
      → IsIndexed (record {
        interfaces = Map.remove name t.interfaces;
        index_to_name = Map.remove info.id t.index_to_name;
        name_to_index = Map.remove name t.name_to_index;
        by_type = Map.entry_remove info.interface_type name t.by_type;
        by_parent = remove_parent info.parent name t.by_parent;
        by_state = Map.entry_remove info.state name t.by_state;
      })
  remove_present name info e = record {
    named = λ n i f. ground (arith, Map.get-remove n name t.interfaces, h.named n i);
    indices = λ n i. ground (
      arith,
      Map.get-remove n name t.interfaces,
      Map.get-remove n name t.name_to_index,
      h.indices n i,
    );
    names = λ n i. ground (
      arith,
      Map.get-remove n name t.interfaces,
      Map.get-remove i info.id t.index_to_name,
      h.names n i,
      h.names name i,
      e,
    );
    types = λ n k. ground (
      arith,
      Map.get-remove n name t.interfaces,
      Map.has-entry_remove k info.interface_type n name t.by_type,
      h.types n k,
      e,
    );
    parents = λ n p. ground (
      arith,
      Map.get-remove n name t.interfaces,
      has-remove_parent info.parent p n name t.by_parent,
      h.parents n p,
      e,
    );
    states = λ n k. ground (
      arith,
      Map.get-remove n name t.interfaces,
      Map.has-entry_remove k info.state n name t.by_state,
      h.states n k,
      e,
    );
  }

  no_index :
      (name : String) → Map.get name t.interfaces ≡ none → Map.get name t.name_to_index ≡ none
  no_index name e = elim (Option-cases (Map.get name t.name_to_index)) [
    | inl none_yet ↦ none_yet
    | inr (i, some_i) ↦ absurd (ground (arith, h.indices name i, e, some_i))
  ]

  no_name :
      (name : String) (i : ℕ)
      → Map.get name t.interfaces ≡ none
      → IsFree i name t
      → Map.get i t.index_to_name ≡ none
  no_name name i e free = elim (Option-cases (Map.get i t.index_to_name)) [
    | inl none_yet ↦ none_yet
    | inr (n, some_n) ↦ elim (n =? name) [
      | yes p ↦ absurd (ground (arith, h.names n i, e, some_n))
      | no p ↦ absurd (ground (arith, h.names n i, free n p, some_n))
    ]
  ]

  pub insert_absent :
      (info : InterfaceInfo)
      → Map.get info.name t.interfaces ≡ none
      → IsFree info.id info.name t
      → IsIndexed (insert t info)
  unfolding insert
  insert_absent info e free =
      let none_i = no_index info.name e in
      let none_n = no_name info.name info.id e free in
      let names = λ (n : String). Map.get-insert n info.name info t.interfaces in
      rw (none_n, none_i)
        (record {
          named = λ n i f. ground (arith, names n, h.named n i);
          indices = λ n i.
              ground
                (arith, names n, Map.get-insert n info.name info.id t.name_to_index, h.indices n i);
          names = λ n i. ground (
            arith,
            names n,
            Map.get-insert i info.id info.name t.index_to_name,
            h.names n i,
            free n,
            e,
          );
          types = λ n k. ground (
            arith,
            names n,
            Map.has-entry_insert k info.interface_type n info.name t.by_type,
            h.types n k,
            e,
          );
          parents = λ n p. ground (
            arith,
            names n,
            has-insert_parent info.parent p n info.name t.by_parent,
            h.parents n p,
            e,
          );
          states = λ n k. ground (
            arith,
            names n,
            Map.has-entry_insert k info.state n info.name t.by_state,
            h.states n k,
            e,
          );
        })
