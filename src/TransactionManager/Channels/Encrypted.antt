-- ===== src/TransactionManager/Channels/Encrypted.antt =====
-- A channel of encrypted transactions, as transactions-factory.ts makes it and channel-parser.ts
-- reads it.
use request_network.Base.{
  ok_value, ◌≡◌, refl, ap, sym, inl, inr, true, String, Option, none, some, List, [], ◌∷◌, Dict, ok,
  >>=-eq-ok, Result-cases, arith, truthy,
}
use request_network.MultiFormat.{Deserialized, serialize}
use request_network.MultiFormat.Exact.{deserialize-serialize_gcm}
use request_network.Encryption.{aes256_gcm, EncryptionParameters}
use request_network.Encryption.Library.{IsSymmetric}
use request_network.Encryption.Symmetric.{encrypt_with_aes256gcm, generate32_buffer_key}
use request_network.Encryption.Methods.{encrypt, decrypt}
use request_network.Encryption.Laws.{decrypt-encrypt}
use request_network.TransactionManager.{PersistedTransaction, Environment}
use request_network.TransactionManager.Transactions.{encrypted_transaction, get_data}
use request_network.TransactionManager.Parser.{}
use request_network.TransactionManager.Channels.{}
use request_network.TransactionManager.Factory.{
  check_parsable, encrypted_keys, create_encrypted_transaction,
  create_encrypted_transaction_in_new_channel, encrypted_persisted,
}

module _ {B : Type 0} (env : Environment B) where
  -- A text that the channel key opens as the data, which are JSON.
  abbrev pub Opens : EncryptionParameters → String → String → Type 0
  Opens key s d =
      (truthy s ≡ true)
      × (get_data env (encrypted_transaction s key) ≡ ok d)
      × ((json : String) × (env.sorted_json d ≡ ok json))

  abbrev pub gcm_params : String → EncryptionParameters
  gcm_params key = record { method = aes256_gcm; key = key }

  encrypt-type :
      (d key : String) {e : Deserialized}
      → encrypt env.encryption d (gcm_params key) ≡ ok e
      → e.type ≡ "aes256-gcm"
  unfolding encrypt
  encrypt-type d key {e} h =
      let (buffer, closed, last) =
        >>=-eq-ok
          (encrypt_with_aes256gcm env.encryption (env.encryption.utf8 d)
            (env.encryption.from_base64 key))
          _ h in
      ap (λ r. r.type) (sym (ok_value last))

  parsable :
      (d : String) → check_parsable env d ≡ ok tt → (json : String) × (env.sorted_json d ≡ ok json)
  unfolding check_parsable
  parsable d h = elim (Result-cases (env.sorted_json d)) [
    | inl found ↦ found
    | inr (e, failed) ↦ ground arith
  ]

  -- What is encrypted by a channel key and serialized is opened by it.
  serialized-Opens :
      IsSymmetric env.encryption
      → (d key : String) {e : Deserialized} {s : String}
      → encrypt env.encryption d (gcm_params key) ≡ ok e
      → serialize e ≡ ok s
      → check_parsable env d ≡ ok tt
      → Opens (gcm_params key) s d
  unfolding get_data
  serialized-Opens symmetric d key {e} {s} closed written parses =
      let (read, whole) = deserialize-serialize_gcm e (encrypt-type d key closed) written in
      let opened : decrypt env.encryption e (gcm_params key) ≡ ok d =
        decrypt-encrypt env.encryption symmetric d (gcm_params key) (gcm_params key) (refl, refl)
          closed in
      (whole, rw (get_data, read, opened) refl, parsable d parses)

  -- The first transaction of an encrypted channel.
  pub create_encrypted_transaction_in_new_channel-Opens :
      IsSymmetric env.encryption
      → (d : String) (params : List EncryptionParameters) {p : PersistedTransaction}
      → create_encrypted_transaction_in_new_channel env d params ≡ ok p
      → (s : String) × ((keys : Dict String) × (p
            ≡ encrypted_persisted s (some keys) (some "ecies-aes256-gcm"))
          × (encrypted_keys env (generate32_buffer_key env.encryption) params ≡ ok keys)
          × Opens (gcm_params (generate32_buffer_key env.encryption)) s d)
  unfolding create_encrypted_transaction_in_new_channel
  create_encrypted_transaction_in_new_channel-Opens symmetric d params {p} h =
      let key : String = generate32_buffer_key env.encryption in
      let (e, closed, h₁) = >>=-eq-ok (encrypt env.encryption d (gcm_params key)) _ h in
      let (_, parses, h₂) = >>=-eq-ok (check_parsable env d) _ h₁ in
      let (keys, made, h₃) = >>=-eq-ok (encrypted_keys env key params) _ h₂ in
      let (s, written, last) = >>=-eq-ok (serialize e) _ h₃ in
      (s, (keys, sym (ok_value last), made, serialized-Opens symmetric d key closed written parses))

  -- A further transaction of an encrypted channel.
  pub create_encrypted_transaction-Opens :
      IsSymmetric env.encryption
      → (d key : String) (params : List EncryptionParameters) {p : PersistedTransaction}
      → create_encrypted_transaction env d (gcm_params key) params ≡ ok p
      → (s : String) × ((keys : Option (Dict String)) × (p ≡ encrypted_persisted s keys none)
          × Opens (gcm_params key) s d)
  unfolding create_encrypted_transaction
  create_encrypted_transaction-Opens symmetric d key [] {p} h =
      let (e, closed, h₁) = >>=-eq-ok (encrypt env.encryption d (gcm_params key)) _ h in
      let (_, parses, h₂) = >>=-eq-ok (check_parsable env d) _ h₁ in
      let (s, written, last) = >>=-eq-ok (serialize e) _ h₂ in
      (s, (none, sym (ok_value last), serialized-Opens symmetric d key closed written parses))
  create_encrypted_transaction-Opens symmetric d key (q ∷ params) {p} h =
      let (e, closed, h₁) = >>=-eq-ok (encrypt env.encryption d (gcm_params key)) _ h in
      let (_, parses, h₂) = >>=-eq-ok (check_parsable env d) _ h₁ in
      let (s, written, h₃) = >>=-eq-ok (serialize e) _ h₂ in
      let (keys, _, last) = >>=-eq-ok (encrypted_keys env key (q ∷ params)) _ h₃ in
      (s, (some keys, sym (ok_value last), serialized-Opens symmetric d key closed written parses))
