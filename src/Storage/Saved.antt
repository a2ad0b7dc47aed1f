-- ===== src/Storage/Saved.antt =====
-- What a saved credential of network-daemon/src/storage/mod.rs is read back as.
use Prim.Native.String.{String}
use network_daemon.Prelude.{
  ℕ, ◌≤◌, ◌≡◌, ◌≢◌, refl, sym, ap, ◌∙◌, Option, none, some, List, [], ◌∷◌, ◌++◌, Result, ok, err,
  Result-cases, Option-cases, inl, inr, length, arith,
}
use network_daemon.Storage.{
  Cipher, Database, StorageError, sql, Credential, CredKey, key_of, or_else, split_at, encrypt,
  decrypt, encrypt_column, decrypt_column, save_over, save,
}

-- What is relied on of AES-256-GCM: a nonce has 12 bytes, and what was sealed is unsealed by the same
-- nonce.
pub record Unseals {State : Type 0} (cipher : Cipher State) : Type 0 where
  pub nonce : (s : State) → length (cipher.generate_nonce s).0 ≡ 12
  pub sealed :
      (nonce plaintext ciphertext : List ℕ)
      → cipher.seal nonce plaintext ≡ some ciphertext
      → cipher.unseal nonce ciphertext ≡ some plaintext

-- The bytes of a text, if there is one, are read as this text.
abbrev pub ReadsBack : {State : Type 0} → Cipher State → Option String → Type 0
ReadsBack cipher none = Unit
ReadsBack cipher (some t) = cipher.from_utf8 (cipher.as_bytes t) ≡ some t

-- What is relied on of the database: a row that was written is selected by its key, the other rows are
-- as before, and a new nonce changes no row.
pub record Stores {State : Type 0} (cipher : Cipher State) (db : Database State) : Type 0 where
  pub written :
      (key : CredKey) (blob : Option (List ℕ)) (identity : Option String) (s : State) (u : Unit)
      → (db.upsert key blob identity s).0 ≡ ok u
      → db.select key (db.upsert key blob identity s).1 ≡ ok (some (blob, identity))
  pub others :
      (key j : CredKey) (blob : Option (List ℕ)) (identity : Option String) (s : State)
      → key ≢ j
      → db.select j (db.upsert key blob identity s).1 ≡ db.select j s
  pub nonces :
      (key : CredKey) (s : State) → db.select key (cipher.generate_nonce s).1 ≡ db.select key s

split_at-append : (a b : List ℕ) → split_at (length a) (a ++ b) ≡ (a, b)
unfolding split_at
split_at-append [] b = refl
split_at-append (x ∷ a) b = ground (arith, split_at-append a b)

length-append : (a b : List ℕ) → length a ≤ length (a ++ b)
length-append [] b = omega arith
length-append (x ∷ a) b = omega (arith, length-append a b)

module _ {State : Type 0} (cipher : Cipher State) (db : Database State)
    (laws : Unseals cipher) where
  -- What was encrypted is decrypted to the same text.
  decrypt-encrypt :
      (plaintext : String) (s : State) (blob : List ℕ)
      → ReadsBack cipher (some plaintext)
      → (encrypt cipher db plaintext s).0 ≡ ok blob
      → decrypt cipher db blob ≡ ok plaintext
  unfolding encrypt decrypt
  decrypt-encrypt plaintext s blob text h =
      let nonce = (cipher.generate_nonce s).0 in
      elim (Option-cases (cipher.seal nonce (cipher.as_bytes plaintext))) [
        | inl bad ↦ absurd (ground (arith, h, bad))
        | inr (ct, good) ↦
            let same : nonce ++ ct ≡ blob = ground (arith, h, good) in
            let parts : split_at 12 (nonce ++ ct) ≡ (nonce, ct) =
              rw⁻¹ (laws.nonce s) (split_at-append nonce ct) in
            let long : 12 ≤ length (nonce ++ ct) =
              omega (arith, laws.nonce s, length-append nonce ct) in
            rw⁻¹ same (
              ground
                (arith, parts, long, laws.sealed nonce (cipher.as_bytes plaintext) ct good, text))
      ]

  decrypt_column-encrypt_column :
      (psk : Option String) (s : State) (blob : Option (List ℕ))
      → ReadsBack cipher psk
      → (encrypt_column cipher db psk s).0 ≡ ok blob
      → decrypt_column cipher db blob ≡ ok psk
  unfolding encrypt_column decrypt_column
  decrypt_column-encrypt_column none s blob text h =
      let same : none ≡ blob = ground (arith, h) in rw⁻¹ same refl
  decrypt_column-encrypt_column (some psk) s blob text h =
      elim (Result-cases (encrypt cipher db psk s).0) [
        | inr (e, bad) ↦ absurd (ground (arith, h, bad))
        | inl (b, good) ↦
            let same : some b ≡ blob = ground (arith, h, good) in
            rw⁻¹ same (ground (arith, decrypt-encrypt psk s b text good))
      ]

  select-encrypt_column :
      Stores cipher db
      → (psk : Option String) (key : CredKey) (s : State)
      → db.select key (encrypt_column cipher db psk s).1 ≡ db.select key s
  unfolding encrypt_column encrypt
  select-encrypt_column stores psk key s = ground (arith, stores.nonces key s)

  -- The secrets of a row, decrypted; a row that is not there has none.
  abbrev pub secrets :
      Result db.SqlError (Option (Option (List ℕ) × Option String))
      → Result (StorageError db.SqlError) (Option String × Option String)
  secrets (err e) = err (sql e)
  secrets (ok none) = ok (none, none)
  secrets (ok (some (blob, identity))) = elim (decrypt_column cipher db blob) [
    | err e ↦ err e
    | ok psk ↦ ok (psk, identity)
  ]

  save_over_lem :
      Stores cipher db
      → (cred : Credential) (psk identity : Option String) (s : State)
      → ReadsBack cipher (or_else cred.psk psk)
      → (save_over cipher db cred psk identity s).0 ≡ ok tt
      → (secrets (db.select (key_of cred) (save_over cipher db cred psk identity s).1)
          ≡ ok (or_else cred.psk psk, or_else cred.identity identity))
        × ((j : CredKey)
            → key_of cred ≢ j
            → db.select j (save_over cipher db cred psk identity s).1 ≡ db.select j s)
  unfolding save_over
  save_over_lem stores cred psk identity s text h =
      let new_psk = or_else cred.psk psk in
      let new_identity = or_else cred.identity identity in
      elim (Result-cases (encrypt_column cipher db new_psk s).0) [
        | inr (e, bad) ↦ absurd (ground (arith, h, bad))
        | inl (blob, good) ↦
            let s' = (encrypt_column cipher db new_psk s).1 in
            let back = decrypt_column-encrypt_column new_psk s blob text good in
            (
              ground (arith, h, good, back, stores.written (key_of cred) blob new_identity s' tt),
              λ j apart. ground (
                arith,
                h,
                good,
                stores.others (key_of cred) j blob new_identity s' apart,
                select-encrypt_column stores new_psk j s,
              ),
            )
      ]

  -- A credential that is saved keeps the secrets that it does not bring: afterwards its row has, decrypted,
  -- its own password and identity, or else those that the row had before; all other rows are as before.
  pub save_lem :
      Stores cipher db
      → (cred : Credential) (psk identity : Option String) (s : State)
      → ReadsBack cipher (or_else cred.psk psk)
      → secrets (db.select (key_of cred) s) ≡ ok (psk, identity)
      → (save cipher db cred s).0 ≡ ok tt
      → let s' = (save cipher db cred s).1 in
        (secrets (db.select (key_of cred) s')
          ≡ ok (or_else cred.psk psk, or_else cred.identity identity))
        × ((j : CredKey) → key_of cred ≢ j → db.select j s' ≡ db.select j s)
  unfolding save
  save_lem stores cred psk identity s text before h =
      let same : save cipher db cred s ≡ save_over cipher db cred psk identity s =
        ground (arith, before) in
      rw same (save_over_lem stores cred psk identity s text (sym (ap (λ r. r.0) same) ∙ h))
