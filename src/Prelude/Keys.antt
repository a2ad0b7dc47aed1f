-- ===== src/Prelude/Keys.antt =====
-- Keys of the hash maps and hash sets: a type with a decidable equality (`Eq + Hash`).
use Prim.Native.Nat.{ℕ}
use Prim.Native.String.{String}
use mathlib.Core.Bool.{Bool, true, false}
use mathlib.Core.Path.{◌≡◌, refl, ap}
use mathlib.Core.Option.{Option, none, some}
use native.Mathlib.Decide.{ℕ_discrete}
use text.Mathlib.Text.{◌==◌ as str_eq}
use text.Mathlib.TextEquality.{eq_iff}

pub record Key {ℓ} (K : Type ℓ) : Type ℓ where
  pub eq? : Discrete K

infix 50 ◌=?◌
abbrev pub ◌=?◌ {ℓ} : {K : Type ℓ} ⦃k : Key K⦄ (a b : K) → Dec (a ≡ b)
◌=?◌ ⦃k⦄ = k.eq?

-- The test that the maps compute with.
infix 50 ◌===◌
abbrev pub ◌===◌ {ℓ} : {K : Type ℓ} ⦃k : Key K⦄ → K → K → Bool
a === b = elim (a =? b) [ yes _ ↦ true | no _ ↦ false ]

instance abbrev pub ℕ_key : Key ℕ
ℕ_key = record { eq? = ℕ_discrete }

pub contradict : {t : Bool} → t ≡ true → t ≡ false → ⊥
contradict p q = cc

decide_string : (a b : String) (t : Bool) → str_eq a b ≡ t → Dec (a ≡ b)
decide_string a b true h = yes ((eq_iff a b).0 h)
decide_string a b false h = no (λ e. contradict ((eq_iff a b).1 e) h)

unfoldable pub String_discrete : Discrete String
unfolding decide_string
String_discrete a b = decide_string a b (str_eq a b) refl

instance abbrev pub string_key : Key String
string_key = record { eq? = String_discrete }

pub some_inj {ℓ} : {K : Type ℓ} {a b : K} → some a ≡ some b → a ≡ b
some_inj e = cc

unfoldable pub Option_discrete {ℓ} : {K : Type ℓ} → Discrete K → Discrete (Option K)
Option_discrete dec none none = yes refl
Option_discrete dec none (some b) = no (λ e. cc)
Option_discrete dec (some a) none = no (λ e. cc)
Option_discrete dec (some a) (some b) = elim (dec a b) [
  | yes p ↦ yes (ap some p)
  | no n ↦ no (λ e. n (some_inj e))
]

instance abbrev pub Option_key {ℓ} : {K : Type ℓ} ⦃k : Key K⦄ → Key (Option K)
Option_key ⦃k⦄ = record { eq? = Option_discrete k.eq? }
