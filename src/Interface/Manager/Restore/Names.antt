-- ===== src/Interface/Manager/Restore/Names.antt =====
-- The loop of `create_auto_wlans` in network-daemon/src/interface/mod.rs that names an interface.
use Prim.Native.String.{String}
use text.Mathlib.TextLemmas.{append_cancel_left}
use network_daemon.Prelude.{
  ℕ, zero, suc, ◌+◌, ◌<◌, ◌≤◌, ◌≡◌, ◌≢◌, refl, none, some, List, [], ◌∷◌, true, false,
  if◌then◌else◌, string_key, length, arith, Bool-cases, inl, inr, Option-cases, ap, ◌∙◌,
}
use network_daemon.Prelude.Set
use network_daemon.Prelude.Decimal.{decimal_injective}
use network_daemon.Interface.Manager.Restore.{wlan_name, free_name}

wlan_name_injective : (a b : ℕ) → wlan_name a ≡ wlan_name b → a ≡ b
wlan_name_injective a b e = decimal_injective a b (append_cancel_left "wlan" _ _ e)

-- Removing an element that is there makes the list shorter, and removal never makes it longer.
length-remove :
    (k : String) (s : List String)
    → length (Set.remove k s) + (if Set.contains k s then 1 else 0) ≤ length s
unfolding Set.remove Set.contains
length-remove k [] = omega arith
length-remove k (x ∷ s) = ground (arith, length-remove k s)

-- A name that is not looked at any more can be left out.
free_name-remove :
    (fuel i j : ℕ) (names : List String)
    → i < j
    → free_name fuel j (Set.remove (wlan_name i) names) ≡ free_name fuel j names
unfolding free_name
free_name-remove zero i j names h = refl
free_name-remove (suc fuel) i j names h = ground (
  arith,
  wlan_name_injective i j,
  Set.contains-remove (wlan_name j) (wlan_name i) names,
  free_name-remove fuel i (j + 1) names,
)

free_name_returns :
    (fuel j : ℕ) (names : List String) → length names < fuel → free_name fuel j names ≢ none
unfolding free_name
free_name_returns zero j names h = absurd (omega arith)
free_name_returns (suc fuel) j names h = ground (
  arith,
  length-remove (wlan_name j) names,
  free_name-remove fuel j (j + 1) names,
  free_name_returns fuel (j + 1) (Set.remove (wlan_name j) names),
)

-- A name that the loop finds is the first that is not taken.
free_name_first :
    (fuel j : ℕ) (names : List String) (r : String × ℕ)
    → free_name fuel j names ≡ some r
    → (i : ℕ) × (r ≡ (wlan_name i, i + 1))
      × (j ≤ i)
      × (Set.contains (wlan_name i) names ≡ false)
      × ((k : ℕ) → j ≤ k → k < i → Set.contains (wlan_name k) names ≡ true)
unfolding free_name
free_name_first zero j names r h = absurd cc
free_name_first (suc fuel) j names r h = elim (Bool-cases (Set.contains (wlan_name j) names)) [
  | inl old ↦
      let (i, e, le, new, taken) = free_name_first fuel (j + 1) names r (ground (arith, h, old)) in
      (i, e, omega arith, new, λ k a b. ground (arith, old, taken k))
  | inr new ↦ (j, ground (arith, h, new), omega arith, new, λ k a b. absurd (omega arith))
]

-- With fuel above the number of the names that are taken, the loop finds the first number from the
-- next index on whose name is not taken, and passes that number on.
free_name_lem :
    (fuel j : ℕ) (names : List String)
    → length names < fuel
    → (i : ℕ) × (free_name fuel j names ≡ some (wlan_name i, i + 1))
      × (j ≤ i)
      × (Set.contains (wlan_name i) names ≡ false)
      × ((k : ℕ) → j ≤ k → k < i → Set.contains (wlan_name k) names ≡ true)
free_name_lem fuel j names h = elim (Option-cases (free_name fuel j names)) [
  | inl stuck ↦ absurd (free_name_returns fuel j names h stuck)
  | inr (r, found) ↦
      let (i, e, le, new, taken) = free_name_first fuel j names r found in
      (i, found ∙ ap some e, le, new, taken)
]
