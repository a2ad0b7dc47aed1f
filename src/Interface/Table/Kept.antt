-- ===== src/Interface/Table/Kept.antt =====
-- Storing an interface of network-daemon/src/interface/table.rs again, with other settings.
use Prim.Native.String.{String}
use network_daemon.Prelude.{◌≡◌, some, ℕ_key, string_key, arith, inl, inr, Option-cases}
use network_daemon.Prelude.Map
use network_daemon.Prelude.Map.{has}
use network_daemon.Interface.Info.{InterfaceInfo, InterfaceType_key, ConnectionState_key}
use network_daemon.Interface.Table.{InterfaceTable, insert, drop_old_name, drop_old_index}
use network_daemon.Interface.Table.Indexed.{IsIndexed, IsFree, has-insert_parent}

module _ (t : InterfaceTable) (h : IsIndexed t) where
  own_name :
      (name : String) (old : InterfaceInfo)
      → Map.get name t.interfaces ≡ some old
      → Map.get old.id t.index_to_name ≡ some name
  own_name name old e = elim (Option-cases (Map.get old.id t.index_to_name)) [
    | inl miss ↦ absurd (ground (arith, h.names name old.id, e, miss))
    | inr (n, hit) ↦ ground (arith, h.names name old.id, e, hit)
  ]

  own_index :
      (name : String) (old : InterfaceInfo)
      → Map.get name t.interfaces ≡ some old
      → Map.get name t.name_to_index ≡ some old.id
  own_index name old e = elim (Option-cases (Map.get name t.name_to_index)) [
    | inl miss ↦ absurd (ground (arith, h.indices name old.id, e, miss))
    | inr (i, hit) ↦ ground (arith, h.indices name old.id, e, hit)
  ]

  -- No other interface has the index of an interface of the table.
  pub own-IsFree :
      (name : String) (old : InterfaceInfo)
      → Map.get name t.interfaces ≡ some old
      → IsFree old.id name t
  own-IsFree name old e n p = ground (arith, h.names n old.id, own_name name old e)

  pub insert_kept :
      (info old : InterfaceInfo)
      → Map.get info.name t.interfaces ≡ some old
      → info.id ≡ old.id
      → info.interface_type ≡ old.interface_type
      → info.parent ≡ old.parent
      → info.state ≡ old.state
      → IsIndexed (insert t info)
  unfolding insert drop_old_name drop_old_index
  insert_kept info old e id kind parent state =
      let by_name : Map.get info.id t.index_to_name ≡ some info.name =
        ground (arith, own_name info.name old e) in
      let by_index : Map.get info.name t.name_to_index ≡ some info.id =
        ground (arith, own_index info.name old e) in
      let same : (drop_old_name (Map.get info.id t.index_to_name) info.name t.name_to_index)
          ≡ t.name_to_index =
        ground (arith, by_name) in
      let same' : (drop_old_index (Map.get info.name t.name_to_index) info.id t.index_to_name)
          ≡ t.index_to_name =
        ground (arith, by_index) in
      let names = λ (n : String). Map.get-insert n info.name info t.interfaces in
      rw (same, same')
        (record {
          named = λ n i f. ground (arith, names n, h.named n i);
          indices = λ n i.
              ground
                (arith, names n, Map.get-insert n info.name info.id t.name_to_index, h.indices n i);
          names = λ n i. ground (
            arith,
            names n,
            Map.get-insert i info.id info.name t.index_to_name,
            h.names n i,
            by_name,
            e,
          );
          types = λ n k. ground (
            arith,
            names n,
            Map.has-entry_insert k info.interface_type n info.name t.by_type,
            h.types n k,
            e,
          );
          parents = λ n p. ground (
            arith,
            names n,
            has-insert_parent info.parent p n info.name t.by_parent,
            h.parents n p,
            e,
          );
          states = λ n k. ground (
            arith,
            names n,
            Map.has-entry_insert k info.state n info.name t.by_state,
            h.states n k,
            e,
          );
        })
