-- ===== src/Route/Backup/Consistent.antt =====
-- The two directions of the backup table of network-daemon/src/route/backup.rs mirror one another.
use network_daemon.Prelude.{
  ℕ, some, List, [], ◌∷◌, Key, ℕ_key, ◌===◌, ◌≡◌, true, false, ◌&&◌, arith, if◌then◌else◌,
  Option-cases, inl, inr,
}
use network_daemon.Prelude.Map
use network_daemon.Prelude.Map.{has, IsPruned}
use network_daemon.Prelude.Set
use network_daemon.Route.Backup.{BackupRouteTable, insert_nets, insert, remove_nets, remove}

module _ {ℓ} {I : Type ℓ} ⦃key : Key I⦄ where
  -- An interface is an output of a network exactly when the network is one of the interface, and no
  -- network is kept with no output.
  pub record IsConsistent (t : BackupRouteTable I) : Type ℓ where
    pub mirror : (i : ℕ) (net : I) → has net i t.net_to_id ≡ has i net t.id_to_net
    pub pruned : IsPruned t.net_to_id

  pub insert_nets-IsConsistent :
      (i : ℕ) (nets : List I) (t : BackupRouteTable I)
      → IsConsistent t
      → IsConsistent (insert_nets i nets t)
  unfolding insert_nets
  insert_nets-IsConsistent i [] t h = h
  insert_nets-IsConsistent i (net ∷ nets) t h = insert_nets-IsConsistent i nets _ (record {
    mirror = λ j n. ground (
      arith,
      Map.has-entry_insert n net j i t.net_to_id,
      Map.has-entry_insert j i n net t.id_to_net,
      h.mirror j n,
    );
    pruned = Map.entry_insert-IsPruned net i t.net_to_id h.pruned;
  })

  pub has-insert_nets :
      (i j : ℕ) (net : I) (nets : List I) (t : BackupRouteTable I)
      → has net j (insert_nets i nets t).net_to_id
        ≡ (if i === j && Set.contains net nets then true else has net j t.net_to_id)
  unfolding insert_nets Set.contains
  has-insert_nets i j net [] t = ground arith
  has-insert_nets i j net (n ∷ nets) t =
      let t' = record t {
        net_to_id = Map.entry_insert n i t.net_to_id;
        id_to_net = Map.entry_insert i n t.id_to_net;
      } in
      ground (arith, has-insert_nets i j net nets t', Map.has-entry_insert net n j i t.net_to_id)

  has-remove_nets :
      (i j : ℕ) (net : I) (nets : List I) (m : List (I × List ℕ))
      → has net j (remove_nets i nets m)
        ≡ (if i === j && Set.contains net nets then false else has net j m)
  unfolding remove_nets Set.contains
  has-remove_nets i j net [] m = ground arith
  has-remove_nets i j net (n ∷ nets) m =
      ground (
        arith,
        has-remove_nets i j net nets (Map.entry_prune n i m),
        Map.has-entry_prune net n j i m,
      )

  remove_nets-IsPruned :
      (i : ℕ) (nets : List I) (m : List (I × List ℕ)) → IsPruned m → IsPruned (remove_nets i nets m)
  unfolding remove_nets
  remove_nets-IsPruned i [] m h = h
  remove_nets-IsPruned i (n ∷ nets) m h =
      remove_nets-IsPruned i nets _ (Map.entry_prune-IsPruned n i m h)

  -- After `insert` the interface is an output of each of the given networks, and every other output
  -- is as before: nothing is taken away.
  pub has-insert :
      (t : BackupRouteTable I) (i j : ℕ) (gateway net : I) (nets : List I)
      → has net j (insert t i gateway nets).net_to_id
        ≡ (if i === j && Set.contains net nets then true else has net j t.net_to_id)
  unfolding insert
  has-insert t i j gateway net nets =
      has-insert_nets i j net nets (record t { gateways = Map.insert i gateway t.gateways })

  pub insert-IsConsistent :
      (t : BackupRouteTable I) (i : ℕ) (gateway : I) (nets : List I)
      → IsConsistent t
      → IsConsistent (insert t i gateway nets)
  unfolding insert
  insert-IsConsistent t i gateway nets h =
      insert_nets-IsConsistent i nets _ (record { mirror = h.mirror; pruned = h.pruned })

  has-remove_all :
      (t : BackupRouteTable I) (i j : ℕ) (net : I) (nets : List I)
      → Map.get i t.id_to_net ≡ some nets
      → IsConsistent t
      → has net j (remove_nets i nets t.net_to_id)
        ≡ (if i === j then false else has net j t.net_to_id)
  unfolding Map.set_or_default
  has-remove_all t i j net nets e h =
      ground (arith, has-remove_nets i j net nets t.net_to_id, h.mirror i net)

  -- After `remove` of an interface no network has it as an output, and every other output stays.
  pub has-remove :
      (t : BackupRouteTable I) (i j : ℕ) (net : I)
      → IsConsistent t
      → has net j (remove t i).net_to_id ≡ (if i === j then false else has net j t.net_to_id)
  unfolding remove Map.set_or_default Set.contains
  has-remove t i j net h = elim (Option-cases (Map.get i t.id_to_net)) [
    | inl miss ↦ ground (arith, h.mirror i net)
    | inr (nets, hit) ↦ rw (hit, remove) (has-remove_all t i j net nets hit h)
  ]

  pub remove-IsConsistent :
      (t : BackupRouteTable I) (i : ℕ) → IsConsistent t → IsConsistent (remove t i)
  unfolding remove Map.set_or_default Set.contains
  remove-IsConsistent t i h = elim (Option-cases (Map.get i t.id_to_net)) [
    | inl miss ↦ rw (miss, remove) (record { mirror = h.mirror; pruned = h.pruned })
    | inr (nets, hit) ↦
        rw (hit, remove)
          (record {
            mirror = λ j net. ground (
              arith,
              has-remove_all t i j net nets hit h,
              Map.get-remove j i t.id_to_net,
              h.mirror j net,
            );
            pruned = remove_nets-IsPruned i nets t.net_to_id h.pruned;
          })
  ]
