-- ===== src/Ssid/Escaped.antt =====
-- `unescape_ssid` reads what `escape_ssid` of libnetwork-daemon/src/utils/ssid.rs writes.
use mathlib.Core.Path.{subst}
use network_daemon.Prelude.Text.{
  encode_utf8, as_bytes, from_str_radix, hex_char, from_str_radix-hex_char,
}
use network_daemon.Prelude.{
  ℕ, zero, suc, ◌/◌, ◌%◌, ◌<◌, ◌≤◌, ◌==◌, ltb, ◌≡◌, ◌≢◌, refl, ap, ◌∙◌, List, [], ◌∷◌, ◌++◌, Bool,
  true, false, ◌||◌, if◌then◌else◌, length, arith, Bool-cases, Option-cases, inl, inr, sym,
  ℕ_discrete,
}
use network_daemon.Ssid.{
  hex_escape, take_octal, octal_escape, escape_of, unescape_bytes, unescape_ssid, escape_char,
  escape_ssid,
}

hex_escape-hex_char :
    (c : ℕ) (s : List ℕ)
    → c < 128
    → hex_escape (hex_char (c / 16) ∷ hex_char (c % 16) ∷ s) ≡ (c ∷ [], s)
unfolding hex_escape
hex_escape-hex_char c s h =
    let read = from_str_radix-hex_char c (omega arith) in rw (read, hex_escape) refl

-- The escapes by a letter or by the character itself.
abbrev is_special : ℕ → Bool
is_special c =
    if c == b'\\'
    then true
    else if c == b'"'
    then true
    else if c == b'\n'
    then true
    else if c == b'\r'
    then true
    else c == b'\t'

abbrev is_hex : ℕ → Bool
is_hex c = ltb c 33 || c == 127

escape_char_hex :
    (c : ℕ)
    → is_special c ≡ false
    → is_hex c ≡ true
    → escape_char c ≡ b'\\' ∷ b'x' ∷ hex_char (c / 16) ∷ hex_char (c % 16) ∷ []
unfolding escape_char
escape_char_hex c h e = rw e (ground arith)

escape_char_plain : (c : ℕ) → is_special c ≡ false → is_hex c ≡ false → escape_char c ≡ c ∷ []
unfolding escape_char
escape_char_plain c h e = rw e (ground arith)

-- A character that is escaped is read back in one step.
abbrev ReadBack : ℕ → List ℕ → ℕ → Type 0
ReadBack n s c = unescape_bytes (suc n) (escape_char c ++ s) ≡ encode_utf8 c ++ unescape_bytes n s

special-ReadBack : (n c : ℕ) (s : List ℕ) → is_special c ≡ true → ReadBack n s c
unfolding unescape_bytes escape_char
special-ReadBack n c s h = elim (ℕ_discrete c b'\\') [
  | yes p ↦ subst (ReadBack n s) (sym p) refl
  | no p1 ↦ elim (ℕ_discrete c b'"') [
    | yes p ↦ subst (ReadBack n s) (sym p) refl
    | no p2 ↦ elim (ℕ_discrete c b'\n') [
      | yes p ↦ subst (ReadBack n s) (sym p) refl
      | no p3 ↦ elim (ℕ_discrete c b'\r') [
        | yes p ↦ subst (ReadBack n s) (sym p) refl
        | no p4 ↦ elim (ℕ_discrete c b'\t') [
          | yes p ↦ subst (ReadBack n s) (sym p) refl
          | no p5 ↦ absurd (ground arith)
        ]
      ]
    ]
  ]
]

encode_utf8_ascii : (c : ℕ) → c < 128 → encode_utf8 c ≡ c ∷ []
unfolding encode_utf8
encode_utf8_ascii c h = ground arith

unescape_bytes_plain :
    (n c : ℕ) (s : List ℕ)
    → c ≢ b'\\'
    → unescape_bytes (suc n) (c ∷ s) ≡ encode_utf8 c ++ unescape_bytes n s
unfolding unescape_bytes
unescape_bytes_plain n c s h = ground arith

escape_char-ReadBack : (n c : ℕ) (s : List ℕ) → ReadBack n s c
unfolding unescape_bytes
escape_char-ReadBack n c s = elim (Bool-cases (is_special c)) [
  | inl special ↦ special-ReadBack n c s special
  | inr other ↦ elim (Bool-cases (is_hex c)) [
    | inl hex ↦
        let ascii : c < 128 = ground arith in
        rw (escape_char_hex c other hex, hex_escape-hex_char c s ascii, encode_utf8_ascii c ascii)
          refl
    | inr plain ↦
        rw (escape_char_plain c other plain) (unescape_bytes_plain n c s (λ e. ground arith))
  ]
]

unescape-escape :
    (n : ℕ) (s : List ℕ) → length s ≤ n → unescape_bytes n (escape_ssid s) ≡ as_bytes s
unfolding escape_ssid as_bytes unescape_bytes
unescape-escape zero [] h = refl
unescape-escape zero (c ∷ s) h = absurd (omega arith)
unescape-escape (suc n) [] h = refl
unescape-escape (suc n) (c ∷ s) h =
    escape_char-ReadBack n c (escape_ssid s)
    ∙ ap (λ l. encode_utf8 c ++ l) (unescape-escape n s (omega arith))

length-escape_ssid : (s : List ℕ) → length s ≤ length (escape_ssid s)
unfolding escape_ssid escape_char
length-escape_ssid [] = omega arith
length-escape_ssid (c ∷ s) = ground (arith, length-escape_ssid s)

-- Unescaping what was escaped gives the bytes of the text, read as UTF-8.
pub unescape_ssid-escape_ssid :
    (from_utf8_lossy : List ℕ → List ℕ) (s : List ℕ)
    → unescape_ssid from_utf8_lossy (escape_ssid s) ≡ from_utf8_lossy (as_bytes s)
unfolding unescape_ssid
unescape_ssid-escape_ssid from_utf8_lossy s =
    ap from_utf8_lossy (unescape-escape (length (escape_ssid s)) s (length-escape_ssid s))

length-take_octal : (n : ℕ) (s : List ℕ) → length (take_octal n s).1 ≤ length s
unfolding take_octal
length-take_octal zero s = omega arith
length-take_octal (suc n) [] = omega arith
length-take_octal (suc n) (c ∷ s) = ground (arith, length-take_octal n s)

length-octal_escape : (s : List ℕ) → length (octal_escape s).1 ≤ length s
unfolding octal_escape
length-octal_escape s = ground (arith, length-take_octal 3 s)

length-hex_escape : (s : List ℕ) → length (hex_escape s).1 ≤ length s
unfolding hex_escape
length-hex_escape [] = omega arith
length-hex_escape (a ∷ []) = omega arith
length-hex_escape (a ∷ b ∷ s) = elim (Option-cases (from_str_radix 16 (a ∷ b ∷ []))) [
  | inl bad ↦
      (let e : (hex_escape (a ∷ b ∷ s)).1 ≡ s = rw (bad, hex_escape) refl in rw e (omega arith))
  | inr (byte, good) ↦
      (let e : (hex_escape (a ∷ b ∷ s)).1 ≡ s = rw (good, hex_escape) refl in rw e (omega arith))
]

length-escape_of : (s : List ℕ) → length (escape_of s).1 ≤ length s
unfolding escape_of
length-escape_of [] = omega arith
length-escape_of (c ∷ s) = ground (arith, length-hex_escape s, length-octal_escape (c ∷ s))

-- Fuel of the number of characters is enough: with more the bytes are the same.
pub unescape_bytes_fuel :
    (n k : ℕ) (s : List ℕ) → length s ≤ n → length s ≤ k → unescape_bytes n s ≡ unescape_bytes k s
unfolding unescape_bytes
unescape_bytes_fuel zero zero [] _ _ = refl
unescape_bytes_fuel zero (suc k) [] _ _ = refl
unescape_bytes_fuel (suc n) zero [] _ _ = refl
unescape_bytes_fuel (suc n) (suc k) [] _ _ = refl
unescape_bytes_fuel zero k (c ∷ s) h _ = absurd (omega arith)
unescape_bytes_fuel (suc n) zero (c ∷ s) _ h = absurd (omega arith)
unescape_bytes_fuel (suc n) (suc k) (c ∷ s) h h' =
    ground (
      arith,
      length-escape_of s,
      unescape_bytes_fuel n k s,
      unescape_bytes_fuel n k (escape_of s).1,
    )
