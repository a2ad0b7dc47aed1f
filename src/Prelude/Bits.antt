-- ===== src/Prelude/Bits.antt =====
-- `!0 << k` as a mask on w-bit words, and what `&` with it computes.
use Prim.Native.Nat.{
  ℕ, zero, suc, ◌+◌, ◌-◌, ◌*◌, ◌/◌, ◌%◌, ◌^◌, ◌≤◌, ◌<◌, min, bit_and, digits, bit_and-bitwise,
}
use mathlib.Core.Bool.{Bool, true, false}
use mathlib.Core.Path.{◌≡◌, refl, ◌∙◌, ap}
use native.Mathlib.Nat.{pow-suc, div-div-eq-div-mul, div-lt_iff_lt-mul, one-le-pow}
use native.Mathlib.Omega.{arith}
use network_daemon.Prelude.Tests.{if◌then◌else◌}

-- The common digits of `a` and `b`, with `fuel` rounds.
abbrev common : ℕ → ℕ → ℕ → ℕ
common fuel a b = digits (λ _. zero) min fuel a b

-- Rounds beyond the first operand add nothing.
common-fuel : (k l a b : ℕ) → a ≤ k → a ≤ l → common k a b ≡ common l a b
common-fuel zero zero zero b _ _ = refl
common-fuel zero (suc l) zero b _ _ = refl
common-fuel (suc k) zero zero b _ _ = refl
common-fuel (suc k) (suc l) zero b _ _ = refl
common-fuel (suc k) (suc l) (suc a) b p q =
    omega (arith, common-fuel k l (suc a / 2) (b / 2) (omega arith) (omega arith))
common-fuel _ _ (suc a) b p q = absurd (omega arith)

-- The lowest digit of a conjunction, and the others.
and-halves : (a b : ℕ) → bit_and a b ≡ 2 * bit_and (a / 2) (b / 2) + min (a % 2) (b % 2)
and-halves zero b = omega (arith, bit_and-bitwise 0 b, bit_and-bitwise 0 (b / 2))
and-halves (suc a) b =
    let half : ℕ = suc a / 2 in
    omega (
      arith,
      bit_and-bitwise (suc a) b,
      bit_and-bitwise half (b / 2),
      common-fuel a half half (b / 2) (omega arith) (omega arith),
    )

pos_pow : (k : ℕ) → 0 < 2 ^ k
pos_pow k = one-le-pow k 2 (omega arith)

-- A shifted mask cuts the low digits off.
pub and-shifted : (a m k : ℕ) → bit_and a (m * 2 ^ k) ≡ bit_and (a / 2 ^ k) m * 2 ^ k
and-shifted a m zero =
    let e : a / 1 ≡ a = omega arith in let e' : m * 1 ≡ m = omega arith in rw (e, e') (omega arith)
and-shifted a m (suc k) =
    let power : 2 ^ suc k ≡ 2 ^ k * 2 = pow-suc 2 k in
    let even : m * (2 ^ k * 2) ≡ m * 2 ^ k * 2 = omega arith in
    let half : m * 2 ^ suc k / 2 ≡ m * 2 ^ k = rw (power, even) (omega arith) in
    let bit : m * 2 ^ suc k % 2 ≡ 0 = rw (power, even) (omega arith) in
    let cut : a / 2 / 2 ^ k ≡ a / 2 ^ suc k =
      div-div-eq-div-mul a 2 (2 ^ k) ∙ ap (λ t. a / t) (omega (arith, power)) in
    let low : bit_and (a / 2) (m * 2 ^ suc k / 2) ≡ bit_and (a / 2 ^ suc k) m * 2 ^ k =
      ap (bit_and (a / 2)) half ∙ and-shifted (a / 2) m k ∙ ap (λ t. bit_and t m * 2 ^ k) cut in
    let spread : bit_and (a / 2 ^ suc k) m * 2 ^ suc k ≡ bit_and (a / 2 ^ suc k) m * (2 ^ k * 2) =
      ap (λ t. bit_and (a / 2 ^ suc k) m * t) power in
    omega (arith, and-halves a (m * 2 ^ suc k), bit, low, spread)

-- A mask of ones above the operand keeps it.
pub and-ones : (k a : ℕ) → a < 2 ^ k → bit_and a (2 ^ k - 1) ≡ a
and-ones zero zero h = refl
and-ones zero (suc a) h = absurd (omega arith)
and-ones (suc k) a h =
    let power : 2 ^ suc k ≡ 2 ^ k * 2 = pow-suc 2 k in
    let some_bit : 0 < 2 ^ k = pos_pow k in
    let half : (2 ^ suc k - 1) / 2 ≡ 2 ^ k - 1 = omega (arith, power, some_bit) in
    let bit : (2 ^ suc k - 1) % 2 ≡ 1 = omega (arith, power, some_bit) in
    let low : bit_and (a / 2) ((2 ^ suc k - 1) / 2) ≡ a / 2 =
      ap (bit_and (a / 2)) half ∙ and-ones k (a / 2) (omega (arith, power)) in
    omega (arith, and-halves a (2 ^ suc k - 1), low, bit)

-- Checks a property of every number below a bound by evaluation.
unfoldable pub all_below : ℕ → (ℕ → Bool) → Bool
all_below zero p = true
all_below (suc n) p = if p n then all_below n p else false

pub all_below_sound : (n : ℕ) (p : ℕ → Bool) → all_below n p ≡ true → (i : ℕ) → i < n → p i ≡ true
unfolding all_below
all_below_sound zero p h i lt = absurd (omega arith)
all_below_sound (suc n) p h i lt = ground (arith, all_below_sound n p (ground arith) i)

-- An operand below 2 ^ (k + j) under a mask of j ones that stands k digits up.
pub and-mask : (a k j : ℕ) → a < 2 ^ j * 2 ^ k → bit_and a ((2 ^ j - 1) * 2 ^ k) ≡ a / 2 ^ k * 2 ^ k
and-mask a k j h =
    and-shifted a (2 ^ j - 1) k
    ∙ ap (λ t. t * 2 ^ k) (and-ones j (a / 2 ^ k) ((div-lt_iff_lt-mul (pos_pow k)).1 h))
