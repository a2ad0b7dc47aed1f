-- ===== src/Prelude/Set.antt =====
-- `HashSet<K>`: a list of its elements. The program never relies on the order of iteration; the
-- model iterates in the order of the list.
use mathlib.Core.Bool.{Bool, true, false}
use mathlib.Core.List.{List, [], ◌∷◌, ◌++◌}
use mathlib.Core.Path.{◌≡◌, refl}
use native.Mathlib.Omega.{arith}
use network_daemon.Prelude.Tests.{if◌then◌else◌}
use network_daemon.Prelude.Keys.{Key, ◌===◌}

unfoldable pub is_empty {ℓ} : {K : Type ℓ} → List K → Bool
is_empty [] = true
is_empty (x ∷ s) = false

module _ {ℓ} {K : Type ℓ} ⦃key : Key K⦄ where
  unfoldable pub contains : K → List K → Bool
  contains k [] = false
  contains k (x ∷ s) = if x === k then true else contains k s

  -- `insert`: an element that is present is not added again.
  unfoldable pub insert : K → List K → List K
  insert k [] = k ∷ []
  insert k (x ∷ s) = if x === k then x ∷ s else x ∷ insert k s

  unfoldable pub remove : K → List K → List K
  remove k [] = []
  remove k (x ∷ s) = if x === k then remove k s else x ∷ remove k s

  pub contains-insert :
      (j k : K) (s : List K) → contains j (insert k s) ≡ (if k === j then true else contains j s)
  unfolding contains insert
  contains-insert j k [] = refl
  contains-insert j k (x ∷ s) = ground (arith, contains-insert j k s)

  pub contains-remove :
      (j k : K) (s : List K) → contains j (remove k s) ≡ (if k === j then false else contains j s)
  unfolding contains remove
  contains-remove j k [] = ground arith
  contains-remove j k (x ∷ s) = ground (arith, contains-remove j k s)

  pub contains_of-is_empty : (j : K) (s : List K) → is_empty s ≡ true → contains j s ≡ false
  unfolding contains is_empty
  contains_of-is_empty j [] h = refl
  contains_of-is_empty j (x ∷ s) h = ground arith

  pub is_empty-insert : (k : K) (s : List K) → is_empty (insert k s) ≡ false
  unfolding is_empty insert
  is_empty-insert k [] = refl
  is_empty-insert k (x ∷ s) = ground arith

  -- `collect::<HashSet<_>>()`.
  unfoldable pub collect : List K → List K
  unfolding insert
  collect [] = []
  collect (x ∷ xs) = insert x (collect xs)

  -- `a.difference(&b)`.
  unfoldable pub difference : List K → List K → List K
  unfolding contains
  difference [] b = []
  difference (x ∷ a) b = let rest = difference a b in if contains x b then rest else x ∷ rest

  pub contains-collect : (j : K) (xs : List K) → contains j (collect xs) ≡ contains j xs
  unfolding contains collect
  contains-collect j [] = refl
  contains-collect j (x ∷ xs) =
      ground (arith, contains-collect j xs, contains-insert j x (collect xs))

  pub contains-difference :
      (j : K) (a b : List K)
      → contains j (difference a b) ≡ (if contains j b then false else contains j a)
  unfolding contains difference
  contains-difference j [] b = ground arith
  contains-difference j (x ∷ a) b = ground (arith, contains-difference j a b)

  pub insert_absent : (k : K) (s : List K) → contains k s ≡ false → insert k s ≡ s ++ k ∷ []
  unfolding contains insert
  insert_absent k [] h = refl
  insert_absent k (x ∷ s) h = ground (arith, insert_absent k s)
