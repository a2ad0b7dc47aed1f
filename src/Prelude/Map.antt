-- ===== src/Prelude/Map.antt =====
-- `HashMap<K, V>`: an association list, and `HashMap<K, HashSet<V>>` with the idioms
-- `entry(k).or_default().insert(v)` and `get_mut(k)` followed by `remove(v)`.
-- The program never relies on the order of iteration; the model iterates in the order of the list.
use mathlib.Core.Bool.{Bool, true, false, ◌&&◌}
use mathlib.Core.List.{List, [], ◌∷◌}
use mathlib.Core.Logic.{inl, inr}
use mathlib.Core.Option.{Option, none, some}
use mathlib.Core.Path.{◌≡◌, refl}
use native.Mathlib.Omega.{arith}
use network_daemon.Prelude.Tests.{if◌then◌else◌, Option-cases, Bool-cases}
use network_daemon.Prelude.Keys.{Key, ◌===◌}
use network_daemon.Prelude.Set

module _ {ℓ κ} {K : Type ℓ} {V : Type κ} ⦃key : Key K⦄ where
  unfoldable pub get : K → List (K × V) → Option V
  get k [] = none
  get k ((j, v) ∷ m) = if j === k then some v else get k m

  unfoldable pub insert : K → V → List (K × V) → List (K × V)
  insert k v [] = (k, v) ∷ []
  insert k v ((j, w) ∷ m) = if j === k then (k, v) ∷ m else (j, w) ∷ insert k v m

  unfoldable pub remove : K → List (K × V) → List (K × V)
  remove k [] = []
  remove k ((j, w) ∷ m) = if j === k then remove k m else (j, w) ∷ remove k m

  pub get-insert :
      (j k : K) (v : V) (m : List (K × V))
      → get j (insert k v m) ≡ (if k === j then some v else get j m)
  unfolding get insert
  get-insert j k v [] = refl
  get-insert j k v ((i, w) ∷ m) = ground (arith, get-insert j k v m)

  pub get-remove :
      (j k : K) (m : List (K × V)) → get j (remove k m) ≡ (if k === j then none else get j m)
  unfolding get remove
  get-remove j k [] = ground arith
  get-remove j k ((i, w) ∷ m) = ground (arith, get-remove j k m)

unfoldable pub values {ℓ κ} : {K : Type ℓ} {V : Type κ} → List (K × V) → List V
values [] = []
values ((k, v) ∷ m) = v ∷ values m

unfoldable pub set_or_default {ℓ} : {V : Type ℓ} → Option (List V) → List V
set_or_default none = []
set_or_default (some s) = s

module _ {ℓ κ} {K : Type ℓ} {V : Type κ} ⦃key : Key K⦄ ⦃elem : Key V⦄ where
  -- Whether `v` is in the set that `k` is mapped to.
  abbrev pub has : K → V → List (K × List V) → Bool
  has k v m = Set.contains v (set_or_default (get k m))

  -- `m.entry(k).or_default().insert(v)`.
  unfoldable pub entry_insert : K → V → List (K × List V) → List (K × List V)
  entry_insert k v m = insert k (Set.insert v (set_or_default (get k m))) m

  -- `if let Some(set) = m.get_mut(k) { set.remove(v); }`.
  unfoldable pub entry_remove : K → V → List (K × List V) → List (K × List V)
  entry_remove k v m = elim (get k m) [ none ↦ m | some s ↦ insert k (Set.remove v s) m ]

  -- The same, with the key dropped when its set has become empty.
  unfoldable pub entry_prune : K → V → List (K × List V) → List (K × List V)
  entry_prune k v m = elim (get k m) [
    | none ↦ m
    | some s ↦ if Set.is_empty (Set.remove v s) then remove k m else insert k (Set.remove v s) m
  ]

  pub has-entry_insert :
      (j k : K) (w v : V) (m : List (K × List V))
      → has j w (entry_insert k v m) ≡ (if k === j && v === w then true else has j w m)
  unfolding entry_insert set_or_default
  has-entry_insert j k w v m = ground (
    arith,
    get-insert j k (Set.insert v (set_or_default (get k m))) m,
    Set.contains-insert w v (set_or_default (get k m)),
  )

  pub has-entry_remove :
      (j k : K) (w v : V) (m : List (K × List V))
      → has j w (entry_remove k v m) ≡ (if k === j && v === w then false else has j w m)
  unfolding entry_remove set_or_default Set.contains
  has-entry_remove j k w v m = ground (
    arith,
    get-insert j k (Set.remove v (set_or_default (get k m))) m,
    Set.contains-remove w v (set_or_default (get k m)),
  )

  pub has-entry_prune :
      (j k : K) (w v : V) (m : List (K × List V))
      → has j w (entry_prune k v m) ≡ (if k === j && v === w then false else has j w m)
  unfolding entry_prune set_or_default Set.contains
  has-entry_prune j k w v m = ground (
    arith,
    get-insert j k (Set.remove v (set_or_default (get k m))) m,
    get-remove j k m,
    Set.contains-remove w v (set_or_default (get k m)),
    Set.contains_of-is_empty w (Set.remove v (set_or_default (get k m))),
  )

  -- No key is mapped to the empty set.
  abbrev pub IsPruned : List (K × List V) → Type (ℓ ⊔ κ)
  IsPruned m = (k : K) (s : List V) → get k m ≡ some s → Set.is_empty s ≡ false

  pub entry_insert-IsPruned :
      (k : K) (v : V) (m : List (K × List V)) → IsPruned m → IsPruned (entry_insert k v m)
  unfolding entry_insert
  entry_insert-IsPruned k v m h j s e =
      let old = set_or_default (get k m) in
      ground (arith, get-insert j k (Set.insert v old) m, Set.is_empty-insert v old, h j s)

  pub entry_prune-IsPruned :
      (k : K) (v : V) (m : List (K × List V)) → IsPruned m → IsPruned (entry_prune k v m)
  unfolding entry_prune
  entry_prune-IsPruned k v m h j s e = elim (Option-cases (get k m)) [
    | inl miss ↦ h j s (rw (miss, entry_prune) at e)
    | inr (t, hit) ↦ elim (Bool-cases (Set.is_empty (Set.remove v t))) [
      | inl empty ↦ ground (arith, get-remove j k m, h j s, hit)
      | inr full ↦ ground (arith, get-insert j k (Set.remove v t) m, h j s, hit)
    ]
  ]
