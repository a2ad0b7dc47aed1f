-- ===== src/Storage/Tests.antt =====
-- The theorems about network-daemon/src/storage/mod.rs, applied: a cipher that adds nothing but the nonce,
-- a database with one row, and a file of one text.
use Prim.Native.String.{String}
use network_daemon.Prelude.{
  ℕ, zero, suc, ◌≡◌, ◌≢◌, refl, sym, Option, none, some, List, [], ◌∷◌, true, ok, Key, ◌===◌,
  String_discrete, if◌then◌else◌, arith,
}
use network_daemon.Storage.{Cipher, Database, Credential, CredKey, key_of, or_else, save}
use network_daemon.Storage.Saved.{Unseals, Stores, secrets, save_lem}
use network_daemon.Prelude.Text.{AllBytes}
use network_daemon.Storage.SecretKey.{KeyFile, load_or_create_key, load_or_create_key_again}

CredKey_discrete : Discrete CredKey
CredKey_discrete = hlevel String_discrete

instance abbrev CredKey_key : Key CredKey
CredKey_key = record { eq? = CredKey_discrete }

-- The rows, as a function.
abbrev Rows : Type 0
Rows = CredKey → Option (Option (List ℕ) × Option String)

abbrev twelve : List ℕ
twelve = 0 ∷ 1 ∷ 2 ∷ 3 ∷ 4 ∷ 5 ∷ 6 ∷ 7 ∷ 8 ∷ 9 ∷ 10 ∷ 11 ∷ []

abbrev plain_cipher : Cipher Rows
plain_cipher = record {
  generate_nonce = λ rows. (twelve, rows);
  seal = λ nonce plaintext. some plaintext;
  unseal = λ nonce ciphertext. some ciphertext;
  as_bytes = λ text. 104 ∷ 117 ∷ [];
  from_utf8 = λ bytes. some "hu";
}

abbrev rows_database : Database Rows
rows_database = record {
  SqlError = Unit {0};
  select = λ key rows. ok (rows key);
  upsert =
      λ key blob identity rows. (ok tt, λ j. if key === j then some (blob, identity) else rows j);
  delete = λ key rows. (ok 1, λ j. if key === j then none else rows j);
  delete_any = λ interface_mac ssid bssid rows. (ok 0, rows);
  rows = λ rows. ok [];
}

plain_cipher-Unseals : Unseals plain_cipher
plain_cipher-Unseals = record { nonce = λ s. refl; sealed = λ nonce plaintext ciphertext e. sym e }

rows_database-Stores : Stores plain_cipher rows_database
rows_database-Stores = record {
  written = λ key blob identity s u e. ground arith;
  others = λ key j blob identity s apart. ground arith;
  nonces = λ key s. refl;
}

abbrev home : Credential
home = record {
  interface_mac = none;
  ssid = "home";
  bssid = none;
  security = "Psk";
  psk = some "hu";
  identity = none;
}

save_example :
    let s' = (save plain_cipher rows_database home (λ key. none)).1 in
    (secrets plain_cipher rows_database plain_cipher-Unseals (rows_database.select (key_of home) s')
      ≡ ok (or_else (some "hu") none, or_else none none))
    × ((j : CredKey) → key_of home ≢ j → rows_database.select j s' ≡ ok none)
unfolding save or_else
save_example =
    save_lem plain_cipher rows_database plain_cipher-Unseals rows_database-Stores home none none
      (λ key. none) refl refl refl

abbrev repeat : ℕ → List ℕ
repeat zero = []
repeat (suc n) = 1 ∷ repeat n

repeat-AllBytes : (n : ℕ) → AllBytes (repeat n)
repeat-AllBytes zero = tt
repeat-AllBytes (suc n) = (omega arith, repeat-AllBytes n)

abbrev ones : List ℕ
ones = repeat 32

abbrev text_file : KeyFile (Option (List ℕ))
text_file = record {
  read = λ text. text;
  fill_bytes = λ text. (ones, text);
  write_private = λ new text. (true, some new);
}

load_or_create_key_example :
    let s' = (load_or_create_key {SqlError = Unit} text_file none).1 in
    load_or_create_key {SqlError = Unit} text_file s' ≡ (ok ones, s')
unfolding load_or_create_key
load_or_create_key_example =
    load_or_create_key_again text_file none ones (repeat-AllBytes 32) refl (λ text t e. refl) refl
      refl
