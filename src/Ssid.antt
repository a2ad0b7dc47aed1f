-- ===== src/Ssid.antt =====
-- libnetwork-daemon/src/utils/ssid.rs: the escapes of wpa_supplicant. A text is the list of its
-- characters' numbers, and bytes are numbers below 256.
pub mod Escaped
pub mod Truncated
mod Tests
use network_daemon.Prelude.Text.{encode_utf8, as_bytes, from_str_radix, hex_char}
use network_daemon.Prelude.{
  ℕ, zero, suc, ◌+◌, ◌-◌, ◌*◌, ◌/◌, ◌%◌, ◌<◌, ◌==◌, ltb, leb, Option, none, some, List, [], ◌∷◌,
  ◌++◌, Bool, true, false, ◌&&◌, ◌||◌, if◌then◌else◌, length,
}

-- What an escape pushes, and the characters after it.
abbrev pub Pushed : Type 0
Pushed = List ℕ × List ℕ

-- A hex escape, from the characters after the `x`.
unfoldable pub hex_escape : List ℕ → Pushed
unfolding from_str_radix as_bytes
hex_escape [] = (b'\\' ∷ b'x' ∷ [], [])
hex_escape (a ∷ []) = (b'\\' ∷ b'x' ∷ as_bytes (a ∷ []), [])
hex_escape (a ∷ b ∷ s) = elim (from_str_radix 16 (a ∷ b ∷ [])) [
  | some byte ↦ (byte ∷ [], s)
  | none ↦ (b'\\' ∷ b'x' ∷ as_bytes (a ∷ b ∷ []), s)
]

abbrev pub is_octal : ℕ → Bool
is_octal c = leb b'0' c && leb c b'7'

-- The loop that collects at most `n` octal digits: the digits, and the characters after them.
unfoldable pub take_octal : ℕ → List ℕ → List ℕ × List ℕ
take_octal zero s = ([], s)
take_octal (suc n) [] = ([], [])
take_octal (suc n) (c ∷ s) =
    let (octal, rest) = take_octal n s in if is_octal c then (c ∷ octal, rest) else ([], c ∷ s)

unfoldable pub octal_escape : List ℕ → Pushed
unfolding take_octal from_str_radix
octal_escape s =
    let (octal, rest) = take_octal 3 s in
    elim (from_str_radix 8 octal) [ some byte ↦ (byte ∷ [], rest) | none ↦ (b'\\' ∷ octal, rest) ]

-- The characters after a backslash.
unfoldable pub escape_of : List ℕ → Pushed
unfolding hex_escape octal_escape
escape_of [] = (b'\\' ∷ [], [])
escape_of (c ∷ s) =
    if c == b'x' || c == b'X'
    then hex_escape s
    else if c == b'\\'
    then (b'\\' ∷ [], s)
    else if c == b'"'
    then (b'"' ∷ [], s)
    else if c == b'n'
    then (b'\n' ∷ [], s)
    else if c == b'r'
    then (b'\r' ∷ [], s)
    else if c == b't'
    then (b'\t' ∷ [], s)
    else if is_octal c
    then octal_escape (c ∷ s)
    else (b'\\' ∷ [], c ∷ s)

-- The first pass of `unescape_ssid`, on fuel for each character or escape.
unfoldable pub unescape_bytes : ℕ → List ℕ → List ℕ
unfolding escape_of encode_utf8
unescape_bytes zero s = []
unescape_bytes (suc fuel) [] = []
unescape_bytes (suc fuel) (c ∷ s) = elim (c == b'\\') [
  | true ↦ (escape_of s).0 ++ unescape_bytes fuel (escape_of s).1
  | false ↦ encode_utf8 c ++ unescape_bytes fuel s
]

-- `String::from_utf8_lossy` is a parameter.
unfoldable pub unescape_ssid : (List ℕ → List ℕ) → List ℕ → List ℕ
unfolding unescape_bytes
unescape_ssid from_utf8_lossy s = from_utf8_lossy (unescape_bytes (length s) s)

unfoldable pub escape_char : ℕ → List ℕ
escape_char c =
    if c == b'\\'
    then b'\\' ∷ b'\\' ∷ []
    else if c == b'"'
    then b'\\' ∷ b'"' ∷ []
    else if c == b'\n'
    then b'\\' ∷ b'n' ∷ []
    else if c == b'\r'
    then b'\\' ∷ b'r' ∷ []
    else if c == b'\t'
    then b'\\' ∷ b't' ∷ []
    else if ltb c 33 || c == 127
    then b'\\' ∷ b'x' ∷ hex_char (c / 16) ∷ hex_char (c % 16) ∷ []
    else c ∷ []

unfoldable pub escape_ssid : List ℕ → List ℕ
unfolding escape_char
escape_ssid [] = []
escape_ssid (c ∷ s) = escape_char c ++ escape_ssid s
