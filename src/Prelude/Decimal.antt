-- ===== src/Prelude/Decimal.antt =====
-- `format!("{n}")`: the decimal digits of a number.
use Prim.Native.Nat.{ℕ, zero, suc, ◌+◌, ◌-◌, ◌*◌, ◌/◌, ◌%◌, ◌<◌}
use Prim.Native.Char.{Char, code}
use Prim.Native.String.{String, [], ◌∷◌}
use mathlib.Core.Path.{◌≡◌, refl, sym, ◌∙◌, ap}
use native.Mathlib.Omega.{arith}
use mathlib.Core.Logic.{inl, inr}
use network_daemon.Prelude.Tests.{ltb, if◌then◌else◌, Bool-cases}

unfoldable pub digit : ℕ → Char
digit zero = "0"
digit (suc zero) = "1"
digit (suc (suc zero)) = "2"
digit (suc (suc (suc zero))) = "3"
digit (suc (suc (suc (suc zero)))) = "4"
digit (suc (suc (suc (suc (suc zero))))) = "5"
digit (suc (suc (suc (suc (suc (suc zero)))))) = "6"
digit (suc (suc (suc (suc (suc (suc (suc zero))))))) = "7"
digit (suc (suc (suc (suc (suc (suc (suc (suc zero)))))))) = "8"
digit _ = "9"

-- The digits of `n` before those of `s`.
unfoldable pub digits : ℕ → ℕ → String → String
unfolding digit
digits zero n s = s
digits (suc fuel) n s =
    let rest = digits fuel (n / 10) (digit (n % 10) ∷ s) in if ltb n 10 then digit n ∷ s else rest

unfoldable pub decimal : ℕ → String
unfolding digits
decimal n = digits (suc n) n []

-- The number that is read from digits, after the number `v`.
abbrev read : ℕ → String → ℕ
read v [] = v
read v (c ∷ s) = read (10 * v + (code c - 48)) s

code-digit : (d : ℕ) → d < 10 → code (digit d) - 48 ≡ d
unfolding digit
code-digit zero _ = refl
code-digit (suc zero) _ = refl
code-digit (suc (suc zero)) _ = refl
code-digit (suc (suc (suc zero))) _ = refl
code-digit (suc (suc (suc (suc zero)))) _ = refl
code-digit (suc (suc (suc (suc (suc zero))))) _ = refl
code-digit (suc (suc (suc (suc (suc (suc zero)))))) _ = refl
code-digit (suc (suc (suc (suc (suc (suc (suc zero))))))) _ = refl
code-digit (suc (suc (suc (suc (suc (suc (suc (suc zero)))))))) _ = refl
code-digit (suc (suc (suc (suc (suc (suc (suc (suc (suc zero))))))))) _ = refl
code-digit (suc (suc (suc (suc (suc (suc (suc (suc (suc (suc d)))))))))) h = absurd (omega arith)

read-digits : (fuel n : ℕ) (s : String) → n < fuel → read 0 (digits fuel n s) ≡ read n s
unfolding digits
read-digits zero n s h = absurd (omega arith)
read-digits (suc fuel) n s h = elim (Bool-cases (ltb n 10)) [
  | inl e ↦ rw e (ap (λ v. read v s) (omega (arith, code-digit n (ground arith))))
  | inr e ↦ rw e (
      read-digits fuel (n / 10) (digit (n % 10) ∷ s) (ground arith)
      ∙ ap (λ v. read (10 * (n / 10) + v) s) (code-digit (n % 10) (omega arith))
      ∙ ap (λ v. read v s) (omega arith))
]

pub decimal_injective : (a b : ℕ) → decimal a ≡ decimal b → a ≡ b
unfolding decimal
decimal_injective a b e =
    sym (read-digits (suc a) a [] (omega arith))
    ∙ ap (read 0) e
    ∙ read-digits (suc b) b [] (omega arith)
