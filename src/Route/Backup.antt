-- ===== src/Route/Backup.antt =====
-- network-daemon/src/route/backup.rs: which interfaces have a gateway, and which networks each of
-- them reaches. `I` is the type of prefixed addresses.
pub mod Consistent
pub mod History
mod Tests
use network_daemon.Prelude.{ℕ, Option, none, some, List, [], ◌∷◌, Key, ℕ_key}
use network_daemon.Prelude.Map

pub record BackupRouteTable {ℓ} (I : Type ℓ) : Type ℓ where
  pub gateways : List (ℕ × I)
  pub id_to_net : List (ℕ × List I)
  pub net_to_id : List (I × List ℕ)

abbrev pub empty {ℓ} : {I : Type ℓ} → BackupRouteTable I
empty = record { gateways = []; id_to_net = []; net_to_id = [] }

module _ {ℓ} {I : Type ℓ} ⦃key : Key I⦄ where
  -- The loop of `insert` over the networks.
  unfoldable pub insert_nets : ℕ → List I → BackupRouteTable I → BackupRouteTable I
  insert_nets if_idx [] self = self
  insert_nets if_idx (net ∷ nets) self = insert_nets if_idx nets (record self {
    net_to_id = Map.entry_insert net if_idx self.net_to_id;
    id_to_net = Map.entry_insert if_idx net self.id_to_net;
  })

  unfoldable pub insert : BackupRouteTable I → ℕ → I → List I → BackupRouteTable I
  insert self if_idx gateway nets =
      insert_nets if_idx nets (record self { gateways = Map.insert if_idx gateway self.gateways })

  -- The loop of `remove` over the networks of the interface.
  unfoldable pub remove_nets : ℕ → List I → List (I × List ℕ) → List (I × List ℕ)
  remove_nets if_idx [] net_to_id = net_to_id
  remove_nets if_idx (net ∷ nets) net_to_id =
      remove_nets if_idx nets (Map.entry_prune net if_idx net_to_id)

  unfoldable pub remove : BackupRouteTable I → ℕ → BackupRouteTable I
  remove self if_idx = elim (Map.get if_idx self.id_to_net) [
    | none ↦ record self { gateways = Map.remove if_idx self.gateways }
    | some nets ↦ record {
      gateways = Map.remove if_idx self.gateways;
      id_to_net = Map.remove if_idx self.id_to_net;
      net_to_id = remove_nets if_idx nets self.net_to_id;
    }
  ]

  unfoldable pub net_outputs : BackupRouteTable I → I → Option (List ℕ)
  net_outputs self net = Map.get net self.net_to_id

-- Pairs of a gateway and its interface.
unfoldable pub swap_pairs {ℓ} : {I : Type ℓ} → List (ℕ × I) → List (I × ℕ)
swap_pairs [] = []
swap_pairs ((k, v) ∷ m) = (v, k) ∷ swap_pairs m

unfoldable pub available_gateways {ℓ} : {I : Type ℓ} → BackupRouteTable I → List (I × ℕ)
unfolding swap_pairs
available_gateways self = swap_pairs self.gateways
