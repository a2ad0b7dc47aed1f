-- ===== src/Interface/Table/Laws.antt =====
-- Removal, update and the queries of network-daemon/src/interface/table.rs on a well-formed table.
use Prim.Native.String.{String}
use network_daemon.Prelude.{
  ℕ, ◌≡◌, ◌↔◌, none, some, ℕ_key, string_key, ◌===◌, if◌then◌else◌, arith, inl, inr, Option-cases,
}
use network_daemon.Prelude.Map
use network_daemon.Prelude.Map.{has}
use network_daemon.Interface.Info.{InterfaceInfo, InterfaceType_key, ConnectionState_key}
use network_daemon.Interface.Table.{InterfaceTable, insert, remove, update, get, get_by_index}
use network_daemon.Interface.Table.Indexed.{IsIndexed, IsFree, remove_present, insert_absent}

-- On a well-formed table removal of a name returns its interface if there is one, takes away that
-- name alone, and keeps the table well-formed.
pub remove-IsIndexed :
    (t : InterfaceTable) (name : String)
    → IsIndexed t
    → ((remove t name).1 ≡ get t name)
      × ((n : String) → get (remove t name).0 n ≡ (if name === n then none else get t n))
      × IsIndexed (remove t name).0
unfolding remove get
remove-IsIndexed t name h = elim (Option-cases (Map.get name t.interfaces)) [
  | inl e ↦ (ground (arith, e), λ n. ground (arith, e), rw (e, remove) h)
  | inr (info, e) ↦ (
    ground (arith, e),
    λ n. ground (arith, e, Map.get-remove n name t.interfaces),
    rw (e, remove) (remove_present t h name info e),
  )
]

-- On a well-formed table an update by an interface whose index no other interface has returns the
-- interface that had the name, replaces that one alone, and keeps the table well-formed.
pub update-IsIndexed :
    (t : InterfaceTable) (info : InterfaceInfo)
    → IsIndexed t
    → IsFree info.id info.name t
    → ((update t info).1 ≡ get t info.name)
      × ((n : String) → get (update t info).0 n ≡ (if info.name === n then some info else get t n))
      × IsIndexed (update t info).0
unfolding update get insert
update-IsIndexed t info h free =
    let (old, gone, h') = remove-IsIndexed t info.name h in
    let t' = (remove t info.name).0 in
    (
      old,
      λ n. ground (arith, gone n, Map.get-insert n info.name info t'.interfaces),
      insert_absent t' h' info (ground (arith, gone info.name))
          (λ n p. ground (arith, gone n, free n p)),
    )

-- On a well-formed table an index finds an interface exactly when that interface stands under its
-- name and has the index.
get_by_index_iff :
    (t : InterfaceTable) (i : ℕ) (info : InterfaceInfo)
    → IsIndexed t
    → (get_by_index t i ≡ some info) ↔ ((get t info.name ≡ some info) × (info.id ≡ i))
unfolding get_by_index get
get_by_index_iff t i info h = elim (Option-cases (Map.get i t.index_to_name)) [
  | inl e ↦ (λ f. ground (arith, e), λ f. ground (arith, e, h.names info.name i))
  | inr (n, e) ↦ (
    λ f.
        let at_n : Map.get n t.interfaces ≡ some info = ground (arith, e) in
        let own : info.name ≡ n = h.named n info at_n in ground (arith, e, own, at_n, h.names n i),
    λ f. ground (arith, e, h.names info.name i),
  )
]
