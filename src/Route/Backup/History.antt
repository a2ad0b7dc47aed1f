-- ===== src/Route/Backup/History.antt =====
-- A backup table of network-daemon/src/route/backup.rs against the history of its operations.
use network_daemon.Prelude.{
  ℕ, some, List, [], ◌∷◌, Key, ℕ_key, ◌===◌, ◌≡◌, ◌≢◌, refl, ◌∙◌, Bool, true, false, ◌&&◌, arith,
  if◌then◌else◌,
}
use network_daemon.Prelude.Map
use network_daemon.Prelude.Map.{has}
use network_daemon.Prelude.Set
use network_daemon.Route.Backup
use network_daemon.Route.Backup.{BackupRouteTable, empty, net_outputs}
use network_daemon.Route.Backup.Consistent.{
  IsConsistent, insert-IsConsistent, remove-IsConsistent, has-insert, has-remove,
}

-- What the manager does to a backup table.
pub data Operation {ℓ} (I : Type ℓ) : Type ℓ where
  insert : ℕ → I → List I → Operation I
  remove : ℕ → Operation I

module _ {ℓ} {I : Type ℓ} ⦃key : Key I⦄ where
  unfoldable pub apply : Operation I → BackupRouteTable I → BackupRouteTable I
  apply (insert i gateway nets) t = Backup.insert t i gateway nets
  apply (remove i) t = Backup.remove t i

  unfoldable pub run : List (Operation I) → BackupRouteTable I → BackupRouteTable I
  run [] t = t
  run (op ∷ ops) t = run ops (apply op t)

  -- The specification: the last operations on an interface decide whether it reaches a network. A
  -- removal forgets all its networks, and an insertion adds to those that are known.
  abbrev pub reaches_after : Operation I → (ℕ → I → Bool) → ℕ → I → Bool
  reaches_after (insert i gateway nets) reaches j net =
      if i === j && Set.contains net nets then true else reaches j net
  reaches_after (remove i) reaches j net = if i === j then false else reaches j net

  abbrev pub reaches_run : List (Operation I) → (ℕ → I → Bool) → ℕ → I → Bool
  reaches_run [] reaches = reaches
  reaches_run (op ∷ ops) reaches = reaches_run ops (reaches_after op reaches)

  abbrev pub Implements : BackupRouteTable I → (ℕ → I → Bool) → Type ℓ
  Implements t reaches = (j : ℕ) (net : I) → has net j t.net_to_id ≡ reaches j net

  apply-IsConsistent :
      (op : Operation I) (t : BackupRouteTable I) → IsConsistent t → IsConsistent (apply op t)
  unfolding apply
  apply-IsConsistent (insert i gateway nets) t h = insert-IsConsistent t i gateway nets h
  apply-IsConsistent (remove i) t h = remove-IsConsistent t i h

  apply-Implements :
      (op : Operation I) (t : BackupRouteTable I) (reaches : ℕ → I → Bool)
      → IsConsistent t
      → Implements t reaches
      → Implements (apply op t) (reaches_after op reaches)
  unfolding apply
  apply-Implements (insert i gateway nets) t reaches h r j net =
      has-insert t i j gateway net nets
      ∙ (λ k. if i === j && Set.contains net nets then true else r j net k)
  apply-Implements (remove i) t reaches h r j net =
      has-remove t i j net h ∙ (λ k. if i === j then false else r j net k)

  run-Implements :
      (ops : List (Operation I)) (t : BackupRouteTable I) (reaches : ℕ → I → Bool)
      → IsConsistent t
      → Implements t reaches
      → IsConsistent (run ops t) × Implements (run ops t) (reaches_run ops reaches)
  unfolding run
  run-Implements [] t reaches h r = (h, r)
  run-Implements (op ∷ ops) t reaches h r =
      run-Implements ops (apply op t) (reaches_after op reaches) (apply-IsConsistent op t h)
        (apply-Implements op t reaches h r)

  abbrev pub nothing : ℕ → I → Bool
  nothing j net = false

  pub empty-IsConsistent : IsConsistent {I = I} empty
  unfolding Map.get Map.set_or_default Set.contains
  empty-IsConsistent = record { mirror = λ i net. refl; pruned = λ net s e. cc }

  empty-Implements : Implements empty nothing
  unfolding Map.get Map.set_or_default Set.contains
  empty-Implements j net = refl

  -- After any sequence of insertions and removals on a new table, an interface is an output of a
  -- network exactly when the history says so.
  pub has-run :
      (ops : List (Operation I)) (j : ℕ) (net : I)
      → has net j (run ops empty).net_to_id ≡ reaches_run ops nothing j net
  has-run ops = (run-Implements ops empty nothing empty-IsConsistent empty-Implements).1

  -- After any sequence of insertions and removals on a new table, a network that `net_outputs` finds
  -- has an output.
  pub net_outputs-run :
      (ops : List (Operation I)) (net : I) (outputs : List ℕ)
      → net_outputs (run ops empty) net ≡ some outputs
      → outputs ≢ []
  unfolding net_outputs Set.is_empty
  net_outputs-run ops net outputs e none_left =
      let h = (run-Implements ops empty nothing empty-IsConsistent empty-Implements).0 in
      ground (arith, h.pruned net outputs e)
