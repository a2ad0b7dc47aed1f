-- ===== src/Storage/SecretKey.antt =====
-- network-daemon/src/storage/mod.rs: the file of the secret key, read and created.
use network_daemon.Prelude.{
  ℕ, ◌*◌, ◌/◌, ◌%◌, ◌≡◌, refl, ◌∙◌, ap, Option, none, some, List, [], ◌∷◌, Bool, true,
  if◌then◌else◌, Result, ok, err, length, ◌==◌, arith,
}
use network_daemon.Prelude.Text.{
  as_bytes, encode_utf8, from_str_radix, hex_char, from_str_radix-hex_char, AllBytes,
  hex_char-is_whitespace, trim, trim_start, trim_end,
}
use network_daemon.Storage.{StorageError, key_length, key_create}

-- The file system and the source of random bytes. A file that cannot be read is no text; whether the
-- writing of a private file went well.
pub record KeyFile (State : Type 0) : Type 0 where
  pub read : State → Option (List ℕ)
  pub fill_bytes : State → List ℕ × State
  pub write_private : List ℕ → State → Bool × State

-- The two digits of each byte.
unfoldable pub hex_text : List ℕ → List ℕ
hex_text [] = []
hex_text (b ∷ key) = hex_char (b / 16) ∷ hex_char (b % 16) ∷ hex_text key

-- The loop over the chunks of two bytes. A chunk that is no ASCII is no digit.
unfoldable pub read_chunks : List ℕ → Option (List ℕ)
unfolding from_str_radix
read_chunks [] = some []
read_chunks (a ∷ []) = elim (from_str_radix 16 (a ∷ [])) [ none ↦ none | some b ↦ some (b ∷ []) ]
read_chunks (a ∷ b ∷ bytes) =
    let rest = read_chunks bytes in
    elim (from_str_radix 16 (a ∷ b ∷ [])) [
      | none ↦ none
      | some byte ↦ elim rest [ none ↦ none | some key ↦ some (byte ∷ key) ]
    ]

-- The key that a text holds.
unfoldable pub parse_key : {SqlError : Type 0} → List ℕ → Result (StorageError SqlError) (List ℕ)
unfolding as_bytes trim read_chunks
parse_key text =
    let bytes = as_bytes (trim text) in
    if length bytes == 64
    then elim (read_chunks bytes) [ none ↦ err (key_length (length bytes)) | some key ↦ ok key ]
    else err (key_length (length bytes))

unfoldable pub load_or_create_key :
    {State SqlError : Type 0}
    → KeyFile State
    → State
    → Result (StorageError SqlError) (List ℕ) × State
unfolding parse_key hex_text
load_or_create_key file s =
    let (key, s') = file.fill_bytes s in
    let (written, s'') = file.write_private (hex_text key) s' in
    elim (file.read s) [
      | some text ↦ (parse_key text, s)
      | none ↦ (if written then ok key else err key_create, s'')
    ]

trim_start-hex_text : (key : List ℕ) → AllBytes key → trim_start (hex_text key) ≡ hex_text key
unfolding trim_start hex_text
trim_start-hex_text [] _ = refl
trim_start-hex_text (b ∷ key) (byte, rest) =
    let high = hex_char-is_whitespace (b / 16) (omega arith) in rw high refl

trim_end-hex_text : (key : List ℕ) → AllBytes key → trim_end (hex_text key) ≡ hex_text key
unfolding trim_end hex_text
trim_end-hex_text [] _ = refl
trim_end-hex_text (b ∷ key) (byte, rest) =
    let high = hex_char-is_whitespace (b / 16) (omega arith) in
    let low = hex_char-is_whitespace (b % 16) (omega arith) in
    rw (high, low, trim_end-hex_text key rest) refl

as_bytes-hex_text : (key : List ℕ) → AllBytes key → as_bytes (hex_text key) ≡ hex_text key
unfolding as_bytes hex_text encode_utf8
as_bytes-hex_text [] _ = refl
as_bytes-hex_text (b ∷ key) (byte, rest) = ground (arith, as_bytes-hex_text key rest)

length-hex_text : (key : List ℕ) → length (hex_text key) ≡ 2 * length key
unfolding hex_text
length-hex_text [] = refl
length-hex_text (b ∷ key) = omega (arith, length-hex_text key)

read_chunks-hex_text : (key : List ℕ) → AllBytes key → read_chunks (hex_text key) ≡ some key
unfolding read_chunks hex_text
read_chunks-hex_text [] _ = refl
read_chunks-hex_text (b ∷ key) (byte, rest) =
    rw (read_chunks, hex_text, from_str_radix-hex_char b byte, read_chunks-hex_text key rest) refl

parse_key-hex_text :
    {SqlError : Type 0} (key : List ℕ)
    → AllBytes key
    → length key ≡ 32
    → parse_key {SqlError = SqlError} (hex_text key) ≡ ok key
unfolding parse_key trim
parse_key-hex_text key bytes size =
    let trimmed : trim_end (trim_start (hex_text key)) ≡ hex_text key =
      ap trim_end (trim_start-hex_text key bytes) ∙ trim_end-hex_text key bytes in
    let count : length (hex_text key) ≡ 64 = omega (arith, length-hex_text key) in
    rw (trimmed, as_bytes-hex_text key bytes, read_chunks-hex_text key bytes, count) refl

-- If the source of random bytes gives bytes, and a file that was written is read as it was written, then
-- a secret key that is created, of 32 bytes, is the key that is loaded ever after.
pub load_or_create_key_again :
    {State SqlError : Type 0} (file : KeyFile State) (s : State) (key : List ℕ)
    → AllBytes (file.fill_bytes s).0
    → length (file.fill_bytes s).0 ≡ 32
    → ((text : List ℕ) (t : State)
        → (file.write_private text t).0 ≡ true
        → file.read (file.write_private text t).1 ≡ some text)
    → file.read s ≡ none
    → (load_or_create_key {SqlError = SqlError} file s).0 ≡ ok key
    → let s' = (load_or_create_key {SqlError = SqlError} file s).1 in
      load_or_create_key {SqlError = SqlError} file s' ≡ (ok key, s')
unfolding load_or_create_key
load_or_create_key_again {SqlError = SqlError} file s key bytes size stored absent created =
    let fresh = (file.fill_bytes s).0 in
    let text = hex_text fresh in
    ground (
      arith,
      absent,
      created,
      stored text (file.fill_bytes s).1,
      parse_key-hex_text {SqlError = SqlError} fresh bytes size,
    )
