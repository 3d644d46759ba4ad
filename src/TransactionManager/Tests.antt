-- ===== src/TransactionManager/Tests.antt =====
-- A channel in clear and an encrypted one, on small data, and the witnesses of the theorems.
use Prim.Native.Char.{Char}
use request_network.Base.{
  ◌≡◌, refl, true, String, Option, none, some, List, [], ◌∷◌, map, ok, err, str_eq, if◌then◌else◌,
  lookup, insert, first_two, drop_two, str_length, lower,
}
use request_network.MultiFormat
use request_network.MultiFormat.{
  find, any, serialize_group, deserialize_group, serialize_format, deserialize_format,
  is_serializable_object, is_deserializable_string,
}
use request_network.Encryption.{EncryptionParameters, ecies, aes256_gcm}
use request_network.Encryption.Methods.{encrypt, decrypt, get_identity_from_encryption_params}
use request_network.Encryption.Symmetric.{
  encrypt_with_aes256gcm, decrypt_with_aes256gcm, generate32_buffer_key,
}
use request_network.Encryption.Elliptic.{ec_encrypt, ec_decrypt, get_address_from_public_key}
use request_network.Encryption.Instance.{characters, joined, zeros, plain_library}
use request_network.TransactionManager.{
  TimestampedTransaction, DecryptionProvider, Environment, unknown,
}
use request_network.TransactionManager.Transactions.{hash_of, get_data, get_hash, get_error}
use request_network.TransactionManager.Parser.{
  try_keys, decrypt_channel_key, channel_key_and_method, parse_persisted_transaction,
}
use request_network.TransactionManager.Channels.{
  Cleaned, decrypt_and_clean_channel, valid_of, ignored_of, Outcome,
}
use request_network.TransactionManager.Factory
use request_network.TransactionManager.Factory.{clear_persisted, encrypted_persisted}
use request_network.TransactionManager.Channels.Cleaning.{Sound, decrypt_and_clean_channel-Sound}
use request_network.TransactionManager.Manager.Foreign.{prepare-foreign}
use request_network.TransactionManager.Manager.{prepare, get_transactions_by_channel_id}
use request_network.TransactionManager.Manager.View.{Call, persist_view_all, add}
use request_network.TransactionManager.Manager.Refinement.{persist_all}
use request_network.TransactionManager.Manager.Reading.{data_of, persist_all-refines}
use request_network.TransactionManager.Instance.{
  stamped, channel_of, dictionary_access, dictionary_access-IsStore,
}

-- A text is JSON when it is not empty, and sorted as it is; two hashes.
abbrev hash_a : String
hash_a = "aaaaaaaaaaaaaaaaaaaaaaaaaaaaaaaaaaaaaaaaaaaaaaaaaaaaaaaaaaaaaaaa"

abbrev id_a : String
id_a = "01aaaaaaaaaaaaaaaaaaaaaaaaaaaaaaaaaaaaaaaaaaaaaaaaaaaaaaaaaaaaaaaa"

abbrev environment : Environment Char
environment = record {
  encryption = plain_library;
  sorted_json = λ s. if str_eq s "" then err "Unexpected end of JSON input" else ok s;
  keccak256 = λ s.
      if str_eq s "1"
      then "0xaaaaaaaaaaaaaaaaaaaaaaaaaaaaaaaaaaaaaaaaaaaaaaaaaaaaaaaaaaaaaaaa"
      else "0xbbbbbbbbbbbbbbbbbbbbbbbbbbbbbbbbbbbbbbbbbbbbbbbbbbbbbbbbbbbbbbbb";
}

-- A provider that knows every identity, by one private key.
abbrev keeper : DecryptionProvider
keeper = record {
  is_identity_registered = λ identity. ok true;
  decrypt = λ e identity. decrypt plain_library e (record { method = ecies; key = "0xsecret" });
}

abbrev provider : Option DecryptionProvider
provider = some keeper

logic : Unit {0}
unfolding hash_of get_data get_hash get_error try_keys decrypt_channel_key
    parse_persisted_transaction decrypt_and_clean_channel zeros characters joined encrypt decrypt
    generate32_buffer_key MultiFormat.serialize MultiFormat.deserialize serialize_format
    deserialize_format first_two drop_two str_length lower is_deserializable_string
    is_serializable_object channel_of lookup insert
    Factory.create_encrypted_transaction_in_new_channel Factory.create_encrypted_transaction
    get_identity_from_encryption_params get_address_from_public_key ec_encrypt ec_decrypt
    encrypt_with_aes256gcm decrypt_with_aes256gcm channel_key_and_method Factory.keys_object
    Factory.all_ecies
logic = tt

abbrev party : EncryptionParameters
party = record { method = ecies; key = "public" }

abbrev channel_key : EncryptionParameters
channel_key = record { method = aes256_gcm; key = "00000000000000000000000000000000" }

abbrev first : TimestampedTransaction
first = stamped (
    encrypted_persisted "04000000000000000000000000000000001"
      (some (
        (
          "20aaaaaaaaaaaaaaaaaaaaaaaaaaaaaaaaaaaaaaaa",
          "0200000000000000000000000000000000000000000000000000000000000000000000000000000000000000000000000000000000000000000",
        )
        ∷ []))
      (some "ecies-aes256-gcm"))

abbrev second : TimestampedTransaction
second = stamped (encrypted_persisted "04000000000000000000000000000000002" none none)

abbrev address : String
address = "0xaaaaaaaaaaaaaaaaaaaaaaaaaaaaaaaaaaaaaaaa"

decrypt_and_clean_channel-Sound_example :
    (os : List Outcome) × (none ∷ some (stamped (clear_persisted "1")) ∷ [] ≡ map valid_of os)
    × (some (record {
      reason = "as first transaction, the hash of the transaction do not match the channelId";
      transaction = stamped (clear_persisted "2");
    })
          ∷ none
          ∷ []
        ≡ map ignored_of os)
    × Sound environment none id_a unknown os
        (stamped (clear_persisted "2") ∷ stamped (clear_persisted "1") ∷ [])
unfolding logic
decrypt_and_clean_channel-Sound_example =
    decrypt_and_clean_channel-Sound environment none id_a
      (stamped (clear_persisted "2") ∷ stamped (clear_persisted "1") ∷ []) refl

prepare-foreign_example :
    prepare environment provider dictionary_access
      ((id_a, stamped (clear_persisted "2") ∷ first ∷ []) ∷ [])
      "3"
      id_a
      (party ∷ [])
    ≡ ok (record {
      transaction = clear_persisted "3";
      encryption_method = none;
      hash = "01bbbbbbbbbbbbbbbbbbbbbbbbbbbbbbbbbbbbbbbbbbbbbbbbbbbbbbbbbbbbbbbb";
    })
unfolding logic
prepare-foreign_example =
    prepare-foreign environment provider dictionary_access
      ((id_a, stamped (clear_persisted "2") ∷ first ∷ []) ∷ []) "3" id_a (party ∷ [])
      (stamped (clear_persisted "2")) (first ∷ []) refl ("2", refl, refl, ("2", refl)) refl refl
      refl

abbrev calls : List Call
calls =
    record { contents = "2"; channel_id = id_a; topics = [] }
    ∷ record { contents = "1"; channel_id = id_a; topics = [] }
    ∷ record { contents = ""; channel_id = id_a; topics = [] }
    ∷ record { contents = "2"; channel_id = id_a; topics = [] }
    ∷ []

-- The first call finds no channel, the second opens it, the third is refused.
specified : persist_view_all environment (λ k. []) calls id_a ≡ "1" ∷ "2" ∷ []
unfolding logic persist_view_all add
specified = refl

persist_all-refines_example :
    (c : Cleaned) × (get_transactions_by_channel_id environment none dictionary_access
        (persist_all environment none dictionary_access [] calls)
        id_a
      ≡ ok c)
    × (data_of c.transactions ≡ map some (persist_view_all environment (λ k. []) calls id_a))
    × (c.ignored_transactions ≡ map (λ t. none) c.transactions)
unfolding logic
persist_all-refines_example =
    persist_all-refines environment none dictionary_access (λ s. Unit) dictionary_access-IsStore
      ("Unexpected end of JSON input", refl) [] calls id_a tt (λ k. refl)
