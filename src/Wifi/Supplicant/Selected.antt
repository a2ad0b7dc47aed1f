-- ===== src/Wifi/Supplicant/Selected.antt =====
-- Which network select_known_candidate of network-daemon/src/wifi/wpa_supplicant/mod.rs chooses.
use mathlib.Core.Path.{subst}
use network_daemon.Prelude.{
  ℕ, suc, ◌≤◌, ◌≡◌, refl, sym, ◌∙◌, inl, inr, ◌⊎◌, Option, none, some, true, false, ◌||◌, ◌&&◌,
  List, [], ◌∷◌, if◌then◌else◌, Bool-cases, ◌===◌, leb, arith,
}
use network_daemon.Prelude.Map
use network_daemon.Prelude.Int.{ℤ, pos, negsuc, ltb_ℤ, eqb_ℤ}
use network_daemon.Wifi.Security.{Security_key}
use network_daemon.Wifi.Network.{KnownNetwork, ScanResult}
use network_daemon.Wifi.Supplicant.{SsidKey, KnownSsidEntry, MacAddr_key, Text_key}
use network_daemon.Wifi.Supplicant.Choice.{Best, keeps_best, better, find_best}

-- The network that is known for a scan result, if it is of the SSID and the security.
abbrev pub candidate : SsidKey → KnownSsidEntry → ScanResult → Option KnownNetwork
candidate key entry scan =
    if scan.ssid === key.ssid && scan.security === key.security
    then Map.get scan.bssid entry.by_bssid
    else none

-- A candidate with its signal and position is no better than the best: its signal is not stronger, and
-- where it is as strong it does not come earlier.
abbrev pub Beats : Best → Option KnownNetwork → ℤ → ℕ → Type 0
Beats best none signal idx = Unit
Beats none (some known) signal idx = ⊥
Beats (some (z, i, _)) (some known) signal idx =
    (ltb_ℤ z signal ≡ false) × (eqb_ℤ z signal ≡ true → i ≤ idx)

abbrev pub BeatsAll : SsidKey → KnownSsidEntry → Best → List ScanResult → ℕ → Type 0
BeatsAll key entry best [] idx = Unit
BeatsAll key entry best (scan ∷ more) idx =
    Beats best (candidate key entry scan) scan.signal idx × BeatsAll key entry best more (suc idx)

keeps_mono :
    (z y x : ℤ) (i j k : ℕ)
    → (ltb_ℤ y z || (eqb_ℤ z y && leb i j)) ≡ false
    → k ≤ j
    → (ltb_ℤ z x ≡ false) × (eqb_ℤ z x ≡ true → i ≤ k)
    → (ltb_ℤ y x ≡ false) × (eqb_ℤ y x ≡ true → j ≤ k)
keeps_mono (pos z) (pos y) (pos x) i j k f le (a, b) = (ground arith, λ e. ground (arith, b))
keeps_mono (pos z) (pos y) (negsuc x) i j k f le (a, b) = (ground arith, λ e. ground (arith, b))
keeps_mono (pos z) (negsuc y) (pos x) i j k f le (a, b) = (ground arith, λ e. ground (arith, b))
keeps_mono (pos z) (negsuc y) (negsuc x) i j k f le (a, b) = (ground arith, λ e. ground (arith, b))
keeps_mono (negsuc z) (pos y) (pos x) i j k f le (a, b) = (ground arith, λ e. ground (arith, b))
keeps_mono (negsuc z) (pos y) (negsuc x) i j k f le (a, b) = (ground arith, λ e. ground (arith, b))
keeps_mono (negsuc z) (negsuc y) (pos x) i j k f le (a, b) = (ground arith, λ e. ground (arith, b))
keeps_mono (negsuc z) (negsuc y) (negsuc x) i j k f le (a, b) =
    (ground arith, λ e. ground (arith, b))

-- The best so far is kept only if it beats what comes.
keeps_best-Beats :
    (best : Best) (known : KnownNetwork) (signal : ℤ) (idx : ℕ)
    → keeps_best best signal idx ≡ true
    → Beats best (some known) signal idx
unfolding keeps_best
keeps_best-Beats none known signal idx h = absurd (cc)
keeps_best-Beats (some (pos z, i, n)) known (pos y) idx h = (ground arith, λ e. ground arith)
keeps_best-Beats (some (pos z, i, n)) known (negsuc y) idx h = (ground arith, λ e. ground arith)
keeps_best-Beats (some (negsuc z, i, n)) known (pos y) idx h = (ground arith, λ e. ground arith)
keeps_best-Beats (some (negsuc z, i, n)) known (negsuc y) idx h = (ground arith, λ e. ground arith)

ltb_ℤ_irrefl : (z : ℤ) → ltb_ℤ z z ≡ false
ltb_ℤ_irrefl (pos n) = ground arith
ltb_ℤ_irrefl (negsuc n) = ground arith

-- What was beaten stays beaten, when the best changes at a later position.
Beats-later :
    (best : Best) (scan : ScanResult) (idx : ℕ) (new : Option KnownNetwork)
    (old : Option KnownNetwork) (signal : ℤ) (k : ℕ)
    → k ≤ idx
    → Beats best old signal k
    → Beats (better best scan idx new) old signal k
unfolding better
Beats-later best scan idx none old signal k le h = h
Beats-later best scan idx (some new) none signal k le h = tt
Beats-later none scan idx (some new) (some old) signal k le h = absurd h
Beats-later (some (z, i, n)) scan idx (some new) (some old) signal k le h =
    elim (Bool-cases (keeps_best (some (z, i, n)) scan.signal idx)) [
      | inl kept ↦ rw (kept, better) h
      | inr out ↦
          rw (out, better) (keeps_mono z scan.signal signal i idx k (unfold keeps_best in out) le h)
    ]

-- A new candidate is beaten by the best after it.
Beats-new :
    (best : Best) (scan : ScanResult) (idx : ℕ) (new : Option KnownNetwork)
    → Beats (better best scan idx new) new scan.signal idx
unfolding better
Beats-new best scan idx none = tt
Beats-new best scan idx (some new) = elim (Bool-cases (keeps_best best scan.signal idx)) [
  | inl kept ↦ rw (kept, better) (keeps_best-Beats best new scan.signal idx kept)
  | inr out ↦ rw (out, better) (ltb_ℤ_irrefl scan.signal, λ e. omega arith)
]

-- The step of the loop.
step_lem :
    (key : SsidKey) (entry : KnownSsidEntry) (best : Best) (scan : ScanResult)
    (more : List ScanResult) (idx : ℕ)
    → find_best key entry (scan ∷ more) idx best
      ≡ find_best key entry more (suc idx) (better best scan idx (candidate key entry scan))
unfolding find_best better
step_lem key entry best scan more idx =
    elim (Bool-cases (scan.ssid === key.ssid && scan.security === key.security)) [
      | inl e ↦ rw (e, find_best) refl
      | inr e ↦ rw (e, find_best) refl
    ]

find_best-Beats :
    (key : SsidKey) (entry : KnownSsidEntry) (scans : List ScanResult) (idx : ℕ) (best : Best)
    (old : Option KnownNetwork) (signal : ℤ) (k : ℕ)
    → k ≤ idx
    → Beats best old signal k
    → Beats (find_best key entry scans idx best) old signal k
unfolding find_best
find_best-Beats key entry [] idx best old signal k le h = h
find_best-Beats key entry (scan ∷ more) idx best old signal k le h =
    rw (step_lem key entry best scan more idx) (
      find_best-Beats key entry more (suc idx) (better best scan idx (candidate key entry scan)) old
        signal k (omega arith)
        (Beats-later best scan idx (candidate key entry scan) old signal k le h))

find_best-BeatsAll :
    (key : SsidKey) (entry : KnownSsidEntry) (scans : List ScanResult) (idx : ℕ) (best : Best)
    → BeatsAll key entry (find_best key entry scans idx best) scans idx
find_best-BeatsAll key entry [] idx best = tt
find_best-BeatsAll key entry (scan ∷ more) idx best =
    let next = better best scan idx (candidate key entry scan) in
    subst (λ b. BeatsAll key entry b (scan ∷ more) idx)
      (sym (step_lem key entry best scan more idx))
      (
        find_best-Beats key entry more (suc idx) next (candidate key entry scan) scan.signal idx
            (omega arith) (Beats-new best scan idx (candidate key entry scan)),
        find_best-BeatsAll key entry more (suc idx) next,
      )

-- The best is one of the candidates, with its signal and its position.
abbrev pub FoundAt : SsidKey → KnownSsidEntry → List ScanResult → ℕ → ℤ → ℕ → KnownNetwork → Type 0
FoundAt key entry [] idx z i n = ⊥
FoundAt key entry (scan ∷ more) idx z i n =
    ((idx ≡ i) × (scan.signal ≡ z) × (candidate key entry scan ≡ some n))
    ⊎ FoundAt key entry more (suc idx) z i n

abbrev pub Found : SsidKey → KnownSsidEntry → List ScanResult → Best → Type 0
Found key entry scans none = Unit
Found key entry scans (some (z, i, n)) = FoundAt key entry scans 0 z i n

better_cases :
    (best : Best) (scan : ScanResult) (idx : ℕ) (new : Option KnownNetwork) (z : ℤ) (i : ℕ)
    (n : KnownNetwork)
    → better best scan idx new ≡ some (z, i, n)
    → (best ≡ some (z, i, n)) ⊎ ((idx ≡ i) × (scan.signal ≡ z) × (new ≡ some n))
unfolding better
better_cases best scan idx none z i n e = inl e
better_cases best scan idx (some new) z i n e =
    elim (Bool-cases (keeps_best best scan.signal idx)) [
      | inl kept ↦ inl (ground (arith, kept, e))
      | inr out ↦ inr (ground (arith, out, e), ground (arith, out, e), ground (arith, out, e))
    ]

find_best-FoundAt :
    (key : SsidKey) (entry : KnownSsidEntry) (scans : List ScanResult) (idx : ℕ) (best : Best)
    (z : ℤ) (i : ℕ) (n : KnownNetwork)
    → find_best key entry scans idx best ≡ some (z, i, n)
    → (best ≡ some (z, i, n)) ⊎ FoundAt key entry scans idx z i n
unfolding find_best
find_best-FoundAt key entry [] idx best z i n e = inl e
find_best-FoundAt key entry (scan ∷ more) idx best z i n e =
    let next = better best scan idx (candidate key entry scan) in
    elim (find_best-FoundAt key entry more (suc idx) next z i n
      (sym (step_lem key entry best scan more idx) ∙ e)) [
        | inr later ↦ inr (inr later)
        | inl now ↦ elim (better_cases best scan idx (candidate key entry scan) z i n now) [
          | inl before ↦ inl before
          | inr here ↦ inr (inl here)
        ]
      ]

pub Found-of :
    (key : SsidKey) (entry : KnownSsidEntry) (scans : List ScanResult) (best : Best)
    → find_best key entry scans 0 none ≡ best
    → Found key entry scans best
Found-of key entry scans none e = tt
Found-of key entry scans (some (z, i, n)) e =
    elim (find_best-FoundAt key entry scans 0 none z i n e) [
      | inl never ↦ absurd (cc)
      | inr found ↦ found
    ]

-- The loop over the scan results finds a network that is known for one of them, of the SSID and security,
-- and none of the others of these has a stronger signal, or as strong a one at an earlier position. It
-- finds none only if no scan result has one.
pub find_best_lem :
    (key : SsidKey) (entry : KnownSsidEntry) (scans : List ScanResult)
    → let best = find_best key entry scans 0 none in
      Found key entry scans best × BeatsAll key entry best scans 0
find_best_lem key entry scans = (
  Found-of key entry scans (find_best key entry scans 0 none) refl,
  find_best-BeatsAll key entry scans 0 none,
)
