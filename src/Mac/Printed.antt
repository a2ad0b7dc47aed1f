-- ===== src/Mac/Printed.antt =====
-- What is parsed of a printed address of libnetwork-daemon/src/interface/mac.rs.
use network_daemon.Prelude.{
  ℕ, ◌/◌, ◌%◌, ◌<◌, ◌≡◌, refl, ap, ◌∙◌, some, List, [], ◌∷◌, map, false, length, ◌==◌, arith,
}
use network_daemon.Prelude.Text.{
  AllBytes, ascii_lowercase, ascii_lowercase-hex_char, from_str_radix-hex_char, hex_char,
  hex_char-is_whitespace, is_whitespace, trim, trim_end, trim_start,
}
use network_daemon.Mac.{MacAddr, split_colons, collect_bytes, parse, print_octets, fmt}

-- The two digits of each byte, apart.
unfoldable parts_of : List ℕ → List (List ℕ)
parts_of [] = []
parts_of (b ∷ octets) = (hex_char (b / 16) ∷ hex_char (b % 16) ∷ []) ∷ parts_of octets

hex_char-colon : (d : ℕ) → d < 16 → (hex_char d == 58) ≡ false
hex_char-colon d h = ground arith

trim_start-print_octets :
    (octets : List ℕ) → AllBytes octets → trim_start (print_octets octets) ≡ print_octets octets
unfolding trim_start print_octets
trim_start-print_octets [] _ = refl
trim_start-print_octets (b ∷ []) (byte, _) = rw (hex_char-is_whitespace (b / 16) (omega arith)) refl
trim_start-print_octets (b ∷ c ∷ octets) (byte, _) =
    rw (hex_char-is_whitespace (b / 16) (omega arith)) refl

trim_end-print_octets :
    (octets : List ℕ) → AllBytes octets → trim_end (print_octets octets) ≡ print_octets octets
unfolding trim_end print_octets is_whitespace
trim_end-print_octets [] _ = refl
trim_end-print_octets (b ∷ []) (byte, _) =
    let high = hex_char-is_whitespace (b / 16) (omega arith) in
    let low = hex_char-is_whitespace (b % 16) (omega arith) in rw (high, low) refl
trim_end-print_octets (b ∷ c ∷ octets) (byte, rest) =
    let high = hex_char-is_whitespace (b / 16) (omega arith) in
    let low = hex_char-is_whitespace (b % 16) (omega arith) in
    rw (high, low, trim_end-print_octets (c ∷ octets) rest) refl

map-print_octets :
    (octets : List ℕ)
    → AllBytes octets
    → map ascii_lowercase (print_octets octets) ≡ print_octets octets
unfolding print_octets ascii_lowercase
map-print_octets [] _ = refl
map-print_octets (b ∷ []) (byte, _) =
    let high = ascii_lowercase-hex_char (b / 16) (omega arith) in
    let low = ascii_lowercase-hex_char (b % 16) (omega arith) in rw (high, low) refl
map-print_octets (b ∷ c ∷ octets) (byte, rest) =
    let high = ascii_lowercase-hex_char (b / 16) (omega arith) in
    let low = ascii_lowercase-hex_char (b % 16) (omega arith) in
    rw (high, low, map-print_octets (c ∷ octets) rest) refl

split_colons-print_octets :
    (b : ℕ) (octets : List ℕ)
    → AllBytes (b ∷ octets)
    → split_colons (print_octets (b ∷ octets)) ≡ parts_of (b ∷ octets)
unfolding split_colons print_octets parts_of
split_colons-print_octets b [] (byte, _) =
    let high = hex_char-colon (b / 16) (omega arith) in
    let low = hex_char-colon (b % 16) (omega arith) in rw (high, low) refl
split_colons-print_octets b (c ∷ octets) (byte, rest) =
    let high = hex_char-colon (b / 16) (omega arith) in
    let low = hex_char-colon (b % 16) (omega arith) in
    rw (high, low, split_colons-print_octets c octets rest) refl

collect_bytes-parts_of :
    (octets : List ℕ) → AllBytes octets → collect_bytes (parts_of octets) ≡ some octets
unfolding collect_bytes parts_of
collect_bytes-parts_of [] _ = refl
collect_bytes-parts_of (b ∷ octets) (byte, rest) =
    rw (collect_bytes, from_str_radix-hex_char b byte, collect_bytes-parts_of octets rest) refl

print_octets-trim :
    (octets : List ℕ) → AllBytes octets → trim (print_octets octets) ≡ print_octets octets
unfolding trim
print_octets-trim octets bytes =
    ap trim_end (trim_start-print_octets octets bytes) ∙ trim_end-print_octets octets bytes

collect_bytes-print_octets :
    (octets : List ℕ)
    → AllBytes octets
    → length octets ≡ 6
    → collect_bytes (split_colons (map ascii_lowercase (trim (print_octets octets)))) ≡ some octets
collect_bytes-print_octets [] _ size = absurd (omega arith)
collect_bytes-print_octets (b ∷ octets) bytes size =
    let all = b ∷ octets in
    rw
      (
        print_octets-trim all bytes,
        map-print_octets all bytes,
        split_colons-print_octets b octets bytes,
      )
      (collect_bytes-parts_of all bytes)

-- Six bytes that are printed as an address are parsed as this address.
pub parse-fmt :
    (self : MacAddr) → AllBytes self.octets → length self.octets ≡ 6 → parse (fmt self) ≡ some self
unfolding parse fmt
parse-fmt self bytes size = rw (parse, collect_bytes-print_octets self.octets bytes size, size) refl
