-- ===== src/Mac.antt =====
-- libnetwork-daemon/src/interface/mac.rs: parse and Display of MacAddr, on the numbers of characters.
pub mod Printed
mod Tests
use network_daemon.Prelude.{
  ℕ, ◌/◌, ◌%◌, Option, none, some, List, [], ◌∷◌, map, length, ◌==◌, if◌then◌else◌,
}
use network_daemon.Prelude.Text.{ascii_lowercase, from_str_radix, hex_char, trim}

-- The six bytes.
pub record MacAddr : Type 0 where
  pub octets : List ℕ

-- A character before the first part.
abbrev pub prepend : ℕ → List (List ℕ) → List (List ℕ)
prepend c [] = (c ∷ []) ∷ []
prepend c (part ∷ parts) = (c ∷ part) ∷ parts

-- `split(":")`.
unfoldable pub split_colons : List ℕ → List (List ℕ)
split_colons [] = [] ∷ []
split_colons (c ∷ s) = let rest = split_colons s in if c == 58 then [] ∷ rest else prepend c rest

-- The bytes of the parts, if each is one.
unfoldable pub collect_bytes : List (List ℕ) → Option (List ℕ)
unfolding from_str_radix
collect_bytes [] = some []
collect_bytes (part ∷ parts) =
    let rest = collect_bytes parts in
    elim (from_str_radix 16 part) [
      | none ↦ none
      | some b ↦ elim rest [ none ↦ none | some bytes ↦ some (b ∷ bytes) ]
    ]

unfoldable pub parse : List ℕ → Option MacAddr
unfolding trim ascii_lowercase split_colons collect_bytes
parse s = elim (collect_bytes (split_colons (map ascii_lowercase (trim s)))) [
  | none ↦ none
  | some bytes ↦ if length bytes == 6 then some (record { octets = bytes }) else none
]

-- `{:02x}` of each byte, with colons between them.
unfoldable pub print_octets : List ℕ → List ℕ
print_octets [] = []
print_octets (b ∷ []) = hex_char (b / 16) ∷ hex_char (b % 16) ∷ []
print_octets (b ∷ c ∷ octets) =
    hex_char (b / 16) ∷ hex_char (b % 16) ∷ 58 ∷ print_octets (c ∷ octets)

unfoldable pub fmt : MacAddr → List ℕ
unfolding print_octets
fmt self = print_octets self.octets
