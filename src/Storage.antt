-- ===== src/Storage.antt =====
-- network-daemon/src/storage/mod.rs: the secret key and the store of credentials. The cipher, the
-- database and the file are other code's: what is used of them are the records here.
pub mod SecretKey
pub mod Saved
mod Tests
use Prim.Native.String.{String}
use network_daemon.Prelude.{
  ℕ, zero, suc, ◌+◌, Option, none, some, List, [], ◌∷◌, ◌++◌, Bool, true, false, if◌then◌else◌,
  Result, ok, err, ◌===◌, string_key, ltb, length, ◌==◌,
}
use network_daemon.Ip.{unwrap_or}

pub record Credential : Type 0 where
  pub interface_mac : Option String
  pub ssid : String
  pub bssid : Option String
  pub security : String
  pub psk : Option String
  pub identity : Option String

-- The columns of the primary key: interface MAC, SSID, BSSID and security.
pub record CredKey : Type 0 where
  pub interface_mac : String
  pub ssid : String
  pub bssid : String
  pub security : String

-- The errors that the store returns, without their texts.
pub data StorageError (SqlError : Type 0) : Type 0 where
  key_length : ℕ → StorageError SqlError
  key_create : StorageError SqlError
  encrypt_failed : StorageError SqlError
  decrypt_failed : StorageError SqlError
  sql : SqlError → StorageError SqlError

-- `Aes256Gcm` with its key, and the bytes of texts. The state holds the source of the nonces.
pub record Cipher (State : Type 0) : Type 0 where
  pub generate_nonce : State → List ℕ × State
  pub seal : List ℕ → List ℕ → Option (List ℕ)
  pub unseal : List ℕ → List ℕ → Option (List ℕ)
  pub as_bytes : String → List ℕ
  pub from_utf8 : List ℕ → Option String

-- The statements that are run on the table `credentials`. A row is its key, `psk_encrypted` and `identity`.
pub record Database (State : Type 0) : Type 1 where
  pub SqlError : Type 0
  pub select : CredKey → State → Result SqlError (Option (Option (List ℕ) × Option String))
  pub upsert :
      CredKey → Option (List ℕ) → Option String → State → Result SqlError (Unit {0}) × State
  -- Deletion by the whole key, and by the key without the security: the number of rows.
  pub delete : CredKey → State → Result SqlError ℕ × State
  pub delete_any : String → String → String → State → Result SqlError ℕ × State
  -- The rows of the query, each of which may fail.
  pub rows :
      State → Result SqlError (List (Result SqlError (CredKey × Option (List ℕ) × Option String)))

unfoldable pub cred_key : Option String → String → Option String → String → CredKey
unfolding unwrap_or
cred_key interface_mac ssid bssid security = record {
  interface_mac = unwrap_or "" interface_mac;
  ssid = ssid;
  bssid = unwrap_or "" bssid;
  security = security;
}

-- The key of a credential.
abbrev pub key_of : Credential → CredKey
key_of cred = cred_key cred.interface_mac cred.ssid cred.bssid cred.security

-- `Option::or`.
unfoldable pub or_else {ℓ} : {A : Type ℓ} → Option A → Option A → Option A
or_else none b = b
or_else (some a) b = some a

-- A column that is empty is no value.
unfoldable pub non_empty : String → Option String
non_empty s = if s === "" then none else some s

pub data StorageCommand : Type 0 where
  save_credential : Credential → StorageCommand
  remove_credential : Option String → String → Option String → Option String → StorageCommand

pub data StorageResult : Type 0 where
  done : StorageResult
  credentials : List Credential → StorageResult

-- `split_at` of a slice.
unfoldable pub split_at : ℕ → List ℕ → List ℕ × List ℕ
split_at zero l = ([], l)
split_at (suc n) [] = ([], [])
split_at (suc n) (x ∷ l) = let (a, b) = split_at n l in (x ∷ a, b)

module _ {State : Type 0} (cipher : Cipher State) (db : Database State) where
  abbrev pub Error : Type 0
  Error = StorageError db.SqlError

  -- `CryptoBox::encrypt`: the nonce, and the ciphertext after it.
  unfoldable pub encrypt : String → State → Result Error (List ℕ) × State
  encrypt plaintext s =
      let (nonce, s') = cipher.generate_nonce s in
      elim (cipher.seal nonce (cipher.as_bytes plaintext)) [
        | none ↦ (err encrypt_failed, s')
        | some ct ↦ (ok (nonce ++ ct), s')
      ]

  -- `CryptoBox::decrypt`.
  unfoldable pub decrypt : List ℕ → Result Error String
  unfolding split_at
  decrypt blob =
      let (nonce, ct) = split_at 12 blob in
      elim (ltb (length blob) 12) [
        | true ↦ err decrypt_failed
        | false ↦ elim (cipher.unseal nonce ct) [
          | none ↦ err decrypt_failed
          | some pt ↦ elim (cipher.from_utf8 pt) [ none ↦ err decrypt_failed | some text ↦ ok text ]
        ]
      ]

  -- `.map(decrypt).transpose()?`.
  unfoldable pub decrypt_column : Option (List ℕ) → Result Error (Option String)
  unfolding decrypt
  decrypt_column none = ok none
  decrypt_column (some blob) = elim (decrypt blob) [ err e ↦ err e | ok psk ↦ ok (some psk) ]

  -- `psk_blob` of `save`.
  unfoldable pub encrypt_column : Option String → State → Result Error (Option (List ℕ)) × State
  unfolding encrypt
  encrypt_column none s = (ok none, s)
  encrypt_column (some psk) s =
      let (blob, s') = encrypt psk s in elim blob [ err e ↦ (err e, s') | ok b ↦ (ok (some b), s') ]

  -- `save`, from the row that the key had.
  unfoldable pub save_over :
      Credential → Option String → Option String → State → Result Error (Unit {0}) × State
  unfolding encrypt_column cred_key or_else
  save_over cred previous_psk previous_identity s =
      let (psk_blob, s') = encrypt_column (or_else cred.psk previous_psk) s in
      elim psk_blob [
        | err e ↦ (err e, s')
        | ok blob ↦
            let (written, s'') =
              db.upsert (key_of cred) blob (or_else cred.identity previous_identity) s' in
            elim written [ ok _ ↦ (ok tt, s'') | err e ↦ (err (sql e), s'') ]
      ]

  unfoldable pub save : Credential → State → Result Error (Unit {0}) × State
  unfolding save_over cred_key decrypt_column
  save cred s = elim (db.select (key_of cred) s) [
    | err e ↦ (err (sql e), s)
    | ok none ↦ save_over cred none none s
    | ok (some (blob, identity)) ↦ elim (decrypt_column blob) [
      | err e ↦ (err e, s)
      | ok psk ↦ save_over cred psk identity s
    ]
  ]

  -- Whether a row was deleted.
  unfoldable pub deleted : Result db.SqlError ℕ × State → Result Error Bool × State
  deleted (r, s) = elim r [
    | err e ↦ (err (sql e), s)
    | ok n ↦ (ok (if n == 0 then false else true), s)
  ]

  unfoldable pub remove :
      Option String → String → Option String → Option String → State → Result Error Bool × State
  unfolding deleted cred_key unwrap_or
  remove interface_mac ssid bssid security s = elim security [
    | some value ↦ deleted (db.delete (cred_key interface_mac ssid bssid value) s)
    | none ↦ deleted (db.delete_any (unwrap_or "" interface_mac) ssid (unwrap_or "" bssid) s)
  ]

  unfoldable pub load_rows :
      List (Result db.SqlError (CredKey × Option (List ℕ) × Option String))
      → Result Error (List Credential)
  unfolding decrypt_column non_empty
  load_rows [] = ok []
  load_rows (err e ∷ rows) = err (sql e)
  load_rows (ok (key, blob, identity) ∷ rows) =
      let rest = load_rows rows in
      elim (decrypt_column blob) [
        | err e ↦ err e
        | ok psk ↦ elim rest [
          | err e ↦ err e
          | ok creds ↦ ok (
              record {
                interface_mac = non_empty key.interface_mac;
                ssid = key.ssid;
                bssid = non_empty key.bssid;
                security = key.security;
                psk = psk;
                identity = identity;
              }
              ∷ creds)
        ]
      ]

  unfoldable pub load_all : State → Result Error (List Credential)
  unfolding load_rows
  load_all s = elim (db.rows s) [ err e ↦ err (sql e) | ok rows ↦ load_rows rows ]

  unfoldable pub handle : StorageCommand → State → Result Error StorageResult × State
  unfolding save remove
  handle (save_credential cred) s =
      let (r, s') = save cred s in elim r [ ok _ ↦ (ok done, s') | err e ↦ (err e, s') ]
  handle (remove_credential interface_mac ssid bssid security) s =
      let (r, s') = remove interface_mac ssid bssid security s in
      elim r [ ok _ ↦ (ok done, s') | err e ↦ (err e, s') ]

  -- The handler of `()`, with which the daemon starts.
  unfoldable pub handle_load : State → Result Error StorageResult
  unfolding load_all
  handle_load s = elim (load_all s) [ ok creds ↦ ok (credentials creds) | err e ↦ err e ]
