-- ===== src/Prelude/Sorted.antt =====
-- `BTreeSet<T>`: a list in the order of `cmp`, in which no two elements compare equal.
use Prim.Native.Nat.{Ordering}
use mathlib.Core.List.{List, [], ◌∷◌}

module _ {ℓ} {T : Type ℓ} (cmp : T → T → Ordering) where
  -- `insert`: an element that compares equal to one of the set is not added.
  unfoldable pub insert : T → List T → List T
  insert x [] = x ∷ []
  insert x (y ∷ ys) =
      let rest = insert x ys in
      elim (cmp x y) [ Ordering.lt ↦ x ∷ y ∷ ys | Ordering.eq ↦ y ∷ ys | Ordering.gt ↦ y ∷ rest ]

  unfoldable pub remove : T → List T → List T
  remove x [] = []
  remove x (y ∷ ys) =
      let rest = remove x ys in
      elim (cmp x y) [ Ordering.lt ↦ y ∷ ys | Ordering.eq ↦ ys | Ordering.gt ↦ y ∷ rest ]
