-- ===== src/Route/Backup/Tests.antt =====
-- Runs of the backup table of network-daemon/src/route/backup.rs.
use network_daemon.Prelude.{ℕ, ◌≡◌, ◌≢◌, refl, some, List, [], ◌∷◌, ℕ_key, ℕ_discrete}
use network_daemon.Prelude.Map
use network_daemon.Prelude.Map.{has}
use network_daemon.Prelude.Set
use network_daemon.Route.Backup
use network_daemon.Route.Backup.{BackupRouteTable, empty, net_outputs}
use network_daemon.Route.Backup.History.{
  Operation, insert, remove, apply, run, reaches_run, nothing, has-run, net_outputs-run,
}

-- Networks 24 and 25 of interface 1, then network 24 of interface 2, then interface 1 goes.
abbrev events : List (Operation ℕ)
events = insert 1 100 (24 ∷ 25 ∷ []) ∷ insert 2 200 (24 ∷ []) ∷ remove 1 ∷ []

has-run_example : has 24 2 (run events empty).net_to_id ≡ reaches_run events nothing 2 24
has-run_example = has-run events 2 24

abbrev two : List ℕ
two = 2 ∷ []

still_reached : net_outputs (run events empty) 24 ≡ some two
unfolding run apply Backup.insert Backup.insert_nets Backup.remove Backup.remove_nets net_outputs
    Map.get Map.insert Map.remove Map.entry_insert Map.entry_remove Map.entry_prune
    Map.set_or_default Set.insert Set.contains Set.remove Set.is_empty ℕ_discrete
still_reached = refl

net_outputs-run_example : two ≢ []
net_outputs-run_example = net_outputs-run events 24 two still_reached
