-- ===== src/TransactionManager/Factory.antt =====
-- The factory of transactions: packages/transaction-manager/src/transactions-factory.ts.
use request_network.Base.{
  Bool, true, false, not, ◌&&◌, String, Option, none, some, List, [], ◌∷◌, Dict, insert, Result, ok,
  err, ◌>>=◌, ◌>>◌, throw_if, append,
}
use request_network.Types.{Identity, ethereum_address, ethereum_smart_contract, other}
use request_network.MultiFormat.{Deserialized, serialize}
use request_network.Encryption.{Method, ecies, aes256_gcm, method_text, EncryptionParameters}
use request_network.Encryption.Symmetric.{generate32_buffer_key}
use request_network.Encryption.Methods.{encrypt, get_identity_from_encryption_params}
use request_network.TransactionManager.{PersistedTransaction, Environment}

abbrev pub is_ecies : Method → Bool
is_ecies ecies = true
is_ecies _ = false

abbrev pub is_gcm : Method → Bool
is_gcm aes256_gcm = true
is_gcm _ = false

-- `encryptionParams.every(param => param.method === ECIES)`
unfoldable pub all_ecies : List EncryptionParameters → Bool
all_ecies [] = true
all_ecies (p ∷ l) = is_ecies p.method && all_ecies l

-- An identity as the object that multi-format writes.
abbrev pub identity_object : Identity → Deserialized
identity_object identity = record {
  type = elim identity.type [
    | ethereum_address ↦ "ethereumAddress"
    | ethereum_smart_contract ↦ "ethereumSmartContract"
    | other name ↦ name
  ];
  value = identity.value;
}

abbrev pub clear_persisted : String → PersistedTransaction
clear_persisted contents = record {
  contents = some contents;
  encrypted_data = none;
  keys = none;
  encryption_method = none;
}

abbrev pub encrypted_persisted :
    String → Option (Dict String) → Option String → PersistedTransaction
encrypted_persisted encrypted_data keys encryption_method = record {
  contents = none;
  encrypted_data = some encrypted_data;
  keys = keys;
  encryption_method = encryption_method;
}

module _ {B : Type 0} (env : Environment B) where
  -- `try { JSON.parse(contents) } catch { throw … }`
  unfoldable pub check_parsable : String → Result (Unit {0})
  check_parsable contents = elim (env.sorted_json contents) [
    | ok json ↦ ok tt
    | err e ↦ err "Data not parsable"
  ]

  unfoldable pub create_clear_transaction : String → Result PersistedTransaction
  unfolding check_parsable
  create_clear_transaction contents = do check_parsable contents; ok (clear_persisted contents)

  -- The key of a channel, encrypted for one party, with the identity of the party.
  unfoldable pub encrypted_key_and_identity :
      String → EncryptionParameters → Result (Deserialized × String)
  encrypted_key_and_identity key params = do
    encrypted_key ← encrypt env.encryption key params
    identity ← get_identity_from_encryption_params env.encryption params
    multi_formatted_identity ← serialize (identity_object identity)
    ok (encrypted_key, multi_formatted_identity)

  -- `Promise.all` of the same for every party.
  unfoldable pub encrypted_keys_and_identities :
      String → List EncryptionParameters → Result (List (Deserialized × String))
  unfolding encrypted_key_and_identity
  encrypted_keys_and_identities key [] = ok []
  encrypted_keys_and_identities key (p ∷ l) = do
    first ← encrypted_key_and_identity key p
    rest ← encrypted_keys_and_identities key l
    ok (first ∷ rest)

  -- The encrypted keys, indexed by identity.
  unfoldable pub keys_object : Dict String → List (Deserialized × String) → Result (Dict String)
  keys_object all_keys [] = ok all_keys
  keys_object all_keys ((encrypted_key, identity) ∷ l) = do
    serialized ← serialize encrypted_key
    keys_object (insert identity serialized all_keys) l

  unfoldable pub encrypted_keys : String → List EncryptionParameters → Result (Dict String)
  unfolding encrypted_keys_and_identities keys_object
  encrypted_keys key encryption_params = do
    throw_if (not (all_ecies encryption_params)) "encryptionParams method must be all: ecies"
    keys_and_identities ← encrypted_keys_and_identities key encryption_params
    keys_object [] keys_and_identities

  unfoldable pub create_encrypted_transaction_in_new_channel :
      String → List EncryptionParameters → Result PersistedTransaction
  unfolding encrypted_keys check_parsable
  create_encrypted_transaction_in_new_channel contents encryption_params =
      let symmetric_key = generate32_buffer_key env.encryption in
      do
        encrypted_data ←
            encrypt env.encryption contents (record { method = aes256_gcm; key = symmetric_key })
        check_parsable contents
        keys ← encrypted_keys symmetric_key encryption_params
        serialized ← serialize encrypted_data
        ok (encrypted_persisted serialized (some keys) (some "ecies-aes256-gcm"))

  unfoldable pub create_encrypted_transaction :
      String → EncryptionParameters → List EncryptionParameters → Result PersistedTransaction
  unfolding encrypted_keys check_parsable
  create_encrypted_transaction contents channel_key encryption_params = do
    throw_if (not (is_gcm channel_key.method)) (
        append "encryption method not supported for the channel key: "
          (method_text channel_key.method))
    encrypted_data ← encrypt env.encryption contents channel_key
    check_parsable contents
    serialized ← serialize encrypted_data
    elim encryption_params [
      | [] ↦ ok (encrypted_persisted serialized none none)
      | p ∷ l ↦ do
        keys ← encrypted_keys channel_key.key (p ∷ l)
        ok (encrypted_persisted serialized (some keys) none)
    ]
