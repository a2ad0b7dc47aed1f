-- ===== src/Prelude/Int.antt =====
-- `i32`: integers, their decimal text, and `str::parse::<i32>`. A text is the numbers of its characters.
use Prim.Native.Nat.{ℕ, zero, suc, ◌+◌, ◌-◌, ◌*◌, ◌/◌, ◌%◌, ◌^◌, ◌<◌}
use mathlib.Core.Bool.{Bool, true, false, ◌&&◌}
use mathlib.Core.List.{List, [], ◌∷◌}
use mathlib.Core.Logic.{inl, inr}
use mathlib.Core.Option.{Option, none, some}
use mathlib.Core.Path.{◌≡◌, refl, ◌∙◌, ap}
use native.Mathlib.Omega.{arith}
use network_daemon.Prelude.Tests.{ltb, leb, ◌==◌, if◌then◌else◌, Bool-cases}

-- `negsuc n` is -(n + 1).
pub data ℤ : Type 0 where
  pos : ℕ → ℤ
  negsuc : ℕ → ℤ

abbrev pub ltb_ℤ : ℤ → ℤ → Bool
ltb_ℤ (pos a) (pos b) = ltb a b
ltb_ℤ (pos a) (negsuc b) = false
ltb_ℤ (negsuc a) (pos b) = true
ltb_ℤ (negsuc a) (negsuc b) = ltb b a

abbrev pub eqb_ℤ : ℤ → ℤ → Bool
eqb_ℤ (pos a) (pos b) = a == b
eqb_ℤ (negsuc a) (negsuc b) = a == b
eqb_ℤ _ _ = false

-- The digits of `n` before those of `s`.
unfoldable pub digits : ℕ → ℕ → List ℕ → List ℕ
digits zero n s = s
digits (suc fuel) n s =
    let rest = digits fuel (n / 10) ((48 + n % 10) ∷ s) in if ltb n 10 then (48 + n) ∷ s else rest

unfoldable pub decimal : ℕ → List ℕ
unfolding digits
decimal n = digits (suc n) n []

-- `i32::to_string`.
unfoldable pub print_int : ℤ → List ℕ
unfolding decimal
print_int (pos n) = decimal n
print_int (negsuc n) = b'-' ∷ decimal (suc n)

-- The number of decimal digits, after the number of those before them.
unfoldable pub read_digits : ℕ → List ℕ → Option ℕ
read_digits value [] = some value
read_digits value (c ∷ s) =
    if leb b'0' c && leb c b'9' then read_digits (10 * value + (c - 48)) s else none

unfoldable pub negate : ℕ → ℤ
negate zero = pos 0
negate (suc n) = negsuc n

-- A number in the range of `i32`, by its sign.
unfoldable pub positive : Option ℕ → Option ℤ
positive none = none
positive (some n) = if ltb n (2 ^ 31) then some (pos n) else none

unfoldable pub negative : Option ℕ → Option ℤ
unfolding negate
negative none = none
negative (some n) = if leb n (2 ^ 31) then some (negate n) else none

-- A sign alone is no number.
unfoldable pub parse_i32 : List ℕ → Option ℤ
unfolding read_digits positive negative
parse_i32 [] = none
parse_i32 (c ∷ []) = positive (read_digits 0 (c ∷ []))
parse_i32 (c ∷ d ∷ s) =
    if c == b'-'
    then negative (read_digits 0 (d ∷ s))
    else if c == b'+'
    then positive (read_digits 0 (d ∷ s))
    else positive (read_digits 0 (c ∷ d ∷ s))

-- The integers of an `i32`.
abbrev pub IsI32 : ℤ → Type 0
IsI32 (pos n) = n < 2 ^ 31
IsI32 (negsuc n) = n < 2 ^ 31

read_digits_step :
    (value d : ℕ) (s : List ℕ)
    → d < 10
    → read_digits value ((48 + d) ∷ s) ≡ read_digits (10 * value + d) s
unfolding read_digits
read_digits_step value d s h = ground arith

read_digits-digits :
    (fuel n : ℕ) (s : List ℕ) → n < fuel → read_digits 0 (digits fuel n s) ≡ read_digits n s
unfolding digits
read_digits-digits zero n s h = absurd (omega arith)
read_digits-digits (suc fuel) n s h = elim (Bool-cases (ltb n 10)) [
  | inl e ↦ rw e (read_digits_step 0 n s (ground arith) ∙ ap (λ v. read_digits v s) (omega arith))
  | inr e ↦ rw e (
      read_digits-digits fuel (n / 10) ((48 + n % 10) ∷ s) (ground arith)
      ∙ read_digits_step (n / 10) (n % 10) s (omega arith)
      ∙ ap (λ v. read_digits v s) (omega arith))
]

-- A text of digits, of which the first is at most a nine.
data Digits : List ℕ → Type 0 where
  digit : (d : ℕ) (s : List ℕ) → d < 10 → Digits ((48 + d) ∷ s)

digits-Digits : (fuel n : ℕ) (s : List ℕ) → n < fuel → Digits (digits fuel n s)
unfolding digits
digits-Digits zero n s h = absurd (omega arith)
digits-Digits (suc fuel) n s h = elim (Bool-cases (ltb n 10)) [
  | inl e ↦ rw e (digit n s (ground arith))
  | inr e ↦ rw e (digits-Digits fuel (n / 10) ((48 + n % 10) ∷ s) (ground arith))
]

parse_i32-positive : (s : List ℕ) → Digits s → parse_i32 s ≡ positive (read_digits 0 s)
unfolding parse_i32
parse_i32-positive _ (digit d [] h) = refl
parse_i32-positive _ (digit d (c ∷ s) h) =
    let minus : ((48 + d) == b'-') ≡ false = ground arith in
    let plus : ((48 + d) == b'+') ≡ false = ground arith in rw (minus, plus) refl

parse_i32-negative : (s : List ℕ) → Digits s → parse_i32 (b'-' ∷ s) ≡ negative (read_digits 0 s)
unfolding parse_i32
parse_i32-negative _ (digit d s h) = refl

-- An `i32` that is printed is parsed as itself.
pub parse_i32-print_int : (z : ℤ) → IsI32 z → parse_i32 (print_int z) ≡ some z
unfolding print_int decimal positive negative negate read_digits
parse_i32-print_int (pos n) h =
    let whole = digits-Digits (suc n) n [] (omega arith) in
    let value = read_digits-digits (suc n) n [] (omega arith) in
    parse_i32-positive _ whole ∙ ap positive value ∙ ground arith
parse_i32-print_int (negsuc n) h =
    let whole = digits-Digits (suc (suc n)) (suc n) [] (omega arith) in
    let value = read_digits-digits (suc (suc n)) (suc n) [] (omega arith) in
    parse_i32-negative _ whole ∙ ap negative value ∙ ground arith
