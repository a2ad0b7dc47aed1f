-- ===== src/Prelude/Text.antt =====
-- Texts as lists of the numbers of their characters: UTF-8, numbers in a radix, and blanks.
use Prim.Native.Nat.{ℕ, ◌+◌, ◌-◌, ◌*◌, ◌/◌, ◌%◌, ◌<◌}
use mathlib.Core.Bool.{Bool, false, ◌&&◌, ◌||◌}
use mathlib.Core.List.{List, [], ◌∷◌, ◌++◌}
use mathlib.Core.Option.{Option, none, some}
use mathlib.Core.Path.{◌≡◌}
use native.Mathlib.Omega.{arith}
use network_daemon.Prelude.Tests.{ltb, leb, ◌==◌, if◌then◌else◌}
use network_daemon.Prelude.Set

-- `char::encode_utf8`.
unfoldable pub encode_utf8 : ℕ → List ℕ
encode_utf8 c =
    if ltb c 128
    then c ∷ []
    else if ltb c 2048
    then (192 + c / 64) ∷ (128 + c % 64) ∷ []
    else if ltb c 65536
    then (224 + c / 4096) ∷ (128 + c / 64 % 64) ∷ (128 + c % 64) ∷ []
    else (240 + c / 262144) ∷ (128 + c / 4096 % 64) ∷ (128 + c / 64 % 64) ∷ (128 + c % 64) ∷ []

-- `str::as_bytes`.
unfoldable pub as_bytes : List ℕ → List ℕ
unfolding encode_utf8
as_bytes [] = []
as_bytes (c ∷ s) = encode_utf8 c ++ as_bytes s

-- `char::to_digit`.
unfoldable pub to_digit : ℕ → ℕ → Option ℕ
to_digit radix c =
    let checked = λ (d : ℕ). if ltb d radix then some d else none in
    if leb b'0' c && leb c b'9'
    then checked (c - b'0')
    else if leb b'a' c && leb c b'z'
    then checked (c - 87)
    else if leb b'A' c && leb c b'Z'
    then checked (c - 55)
    else none

-- The digits of `u8::from_str_radix`, after the value of those before them.
unfoldable pub digits_value : ℕ → ℕ → List ℕ → Option ℕ
unfolding to_digit
digits_value radix value [] = if ltb value 256 then some value else none
digits_value radix value (c ∷ s) = elim (to_digit radix c) [
  | none ↦ none
  | some d ↦ digits_value radix (radix * value + d) s
]

-- `u8::from_str_radix`: a sign `+` may stand before the digits.
unfoldable pub from_str_radix : ℕ → List ℕ → Option ℕ
unfolding digits_value
from_str_radix radix [] = none
from_str_radix radix (c ∷ []) = digits_value radix 0 (c ∷ [])
from_str_radix radix (c ∷ d ∷ s) =
    if c == b'+' then digits_value radix 0 (d ∷ s) else digits_value radix 0 (c ∷ d ∷ s)

-- A digit of `{:02x}`.
abbrev pub hex_char : ℕ → ℕ
hex_char d = if ltb d 10 then 48 + d else 87 + d

-- `to_ascii_lowercase` of a character.
unfoldable pub ascii_lowercase : ℕ → ℕ
ascii_lowercase c = if leb b'A' c && leb c b'Z' then c + 32 else c

-- `char::is_whitespace`.
unfoldable pub is_whitespace : ℕ → Bool
is_whitespace c =
    (leb 9 c && leb c 13)
    || c == 32
    || c == 133
    || c == 160
    || c == 5760
    || (leb 8192 c && leb c 8202)
    || c == 8232
    || c == 8233
    || c == 8239
    || c == 8287
    || c == 12288

unfoldable pub trim_start : List ℕ → List ℕ
unfolding is_whitespace
trim_start [] = []
trim_start (c ∷ s) = let rest = trim_start s in if is_whitespace c then rest else c ∷ s

unfoldable pub trim_end : List ℕ → List ℕ
unfolding is_whitespace Set.is_empty
trim_end [] = []
trim_end (c ∷ s) =
    let rest = trim_end s in if is_whitespace c && Set.is_empty rest then [] else c ∷ rest

-- `str::trim`.
unfoldable pub trim : List ℕ → List ℕ
unfolding trim_start trim_end
trim s = trim_end (trim_start s)

to_digit-hex_char : (d : ℕ) → d < 16 → to_digit 16 (hex_char d) ≡ some d
unfolding to_digit
to_digit-hex_char d h = ground arith

-- The two hex digits of a byte are read as this byte.
pub from_str_radix-hex_char :
    (c : ℕ) → c < 256 → from_str_radix 16 (hex_char (c / 16) ∷ hex_char (c % 16) ∷ []) ≡ some c
unfolding from_str_radix digits_value
from_str_radix-hex_char c h =
    let high = to_digit-hex_char (c / 16) (omega arith) in
    let low = to_digit-hex_char (c % 16) (omega arith) in ground (arith, high, low)

abbrev pub AllBytes : List ℕ → Type 0
AllBytes [] = Unit
AllBytes (b ∷ key) = (b < 256) × AllBytes key

-- No hex digit is a blank.
pub hex_char-is_whitespace : (d : ℕ) → d < 16 → is_whitespace (hex_char d) ≡ false
unfolding is_whitespace
hex_char-is_whitespace d h = ground arith

-- The hex digits are printed in lower case.
pub ascii_lowercase-hex_char : (d : ℕ) → d < 16 → ascii_lowercase (hex_char d) ≡ hex_char d
unfolding ascii_lowercase
ascii_lowercase-hex_char d h = ground arith
