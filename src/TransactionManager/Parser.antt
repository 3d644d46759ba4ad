-- ===== src/TransactionManager/Parser.antt =====
-- The parser of transactions: packages/transaction-manager/src/transactions-parser.ts.
use request_network.Base.{
  Bool, true, false, not, ◌||◌, String, Option, none, some, [], ◌∷◌, Dict, Result, ok, err, ◌>>=◌,
  ◌>>◌, throw_if, if◌then◌else◌, str_eq, append, given, is_some, get_or,
}
use request_network.Types.{Identity, ethereum_address}
use request_network.MultiFormat.{deserialize}
use request_network.Encryption.{Method, aes256_cbc, aes256_gcm, EncryptionParameters}
use request_network.TransactionManager.{
  PersistedTransaction, ChannelType, clear, encrypted, DecryptionProvider,
}
use request_network.TransactionManager.Transactions.{
  Transaction, clear_transaction, encrypted_transaction,
}

-- What `parsePersistedTransaction` resolves to.
pub record Parsed : Type 0 where
  pub transaction : Transaction
  pub channel_key : Option EncryptionParameters
  pub encryption_method : Option String

abbrev pub is_encrypted : ChannelType → Bool
is_encrypted encrypted = true
is_encrypted _ = false

abbrev pub is_clear : ChannelType → Bool
is_clear clear = true
is_clear _ = false

-- The method of the channel key, by the text of the encryption method of the channel.
unfoldable pub channel_key_method : String → Result Method
channel_key_method encryption_method =
    if str_eq encryption_method "ecies-aes256-cbc"
    then ok aes256_cbc
    else if str_eq encryption_method "ecies-aes256-gcm"
    then ok aes256_gcm
    else err (append "Encryption method not supported: " encryption_method)

-- The key of an identity that the provider knows, in the loop of `decryptChannelKey`: the key
-- decrypted so far, empty where there is none, and the reason of the last error.
unfoldable pub try_identity :
    DecryptionProvider → Identity → String → String × String → Result (String × String)
try_identity provider identity encrypted_key (decrypted, reason) = do
  registered ← provider.is_identity_registered identity
  elim registered [
    | false ↦ ok (decrypted, reason)
    | true ↦ elim (deserialize encrypted_key >>= λ key. provider.decrypt key identity) [
      | ok key ↦ ok (key, reason)
      | err e ↦ ok (decrypted, e)
    ]
  ]

unfoldable pub try_key :
    DecryptionProvider → String → String → String × String → Result (String × String)
unfolding try_identity
try_key provider identity_multi_formatted encrypted_key (decrypted, reason) =
    if not (str_eq decrypted "")
    then ok (decrypted, reason)
    else elim (deserialize identity_multi_formatted) [
      | err e ↦ ok (decrypted, reason)
      | ok d ↦
          if not (str_eq d.type "ethereumAddress")
          then ok (decrypted, reason)
          else try_identity provider (record { type = ethereum_address; value = d.value })
              encrypted_key (decrypted, reason)
    ]

unfoldable pub try_keys :
    DecryptionProvider → Dict String → String × String → Result (String × String)
unfolding try_key
try_keys provider [] found = ok found
try_keys provider ((identity, encrypted_key) ∷ keys) found = do
  next ← try_key provider identity encrypted_key found
  try_keys provider keys next

unfoldable pub decrypt_channel_key :
    Option DecryptionProvider → Dict String → String → Result EncryptionParameters
unfolding channel_key_method try_keys
decrypt_channel_key none keys encryption_method = err "No decryption provider given"
decrypt_channel_key (some provider) keys encryption_method = do
  method ← channel_key_method encryption_method
  found ← try_keys provider keys ("", "")
  throw_if (str_eq found.0 "")
      (append "Impossible to decrypt the channel key from this transaction (" (append found.1 ")"))
  ok (record { method = method; key = found.0 })

-- The channel key and the encryption method of an encrypted transaction, from what the channel has
-- and what the transaction brings.
unfoldable pub channel_key_and_method :
    Option DecryptionProvider
    → PersistedTransaction
    → Option EncryptionParameters
    → Option String
    → Result (EncryptionParameters × Option String)
unfolding decrypt_channel_key
channel_key_and_method provider persisted none encryption_method = elim (given encryption_method) [
  | false ↦ do
    throw_if (not (given persisted.encryption_method) || not (is_some persisted.keys))
        "the properties \"encryptionMethod\" and \"keys\" are needed to compute the channel key"
    key ←
        decrypt_channel_key provider (get_or persisted.keys [])
          (get_or persisted.encryption_method "")
    ok (key, persisted.encryption_method)
  | true ↦ do
    throw_if (given persisted.encryption_method)
        "the \"encryptionMethod\" property has been already given for this channel"
    throw_if (not (is_some persisted.keys))
        "the \"keys\" property is needed to compute the channel key"
    key ← decrypt_channel_key provider (get_or persisted.keys []) (get_or encryption_method "")
    ok (key, encryption_method)
]
channel_key_and_method provider persisted (some key) encryption_method =
    elim (given encryption_method) [
      | false ↦ do
        throw_if (not (given persisted.encryption_method))
            "the \"encryptionMethod\" property is needed to use the channel key"
        ok (key, persisted.encryption_method)
      | true ↦ do
        throw_if (given persisted.encryption_method)
            "the \"encryptionMethod\" property has been already given for this channel"
        ok (key, encryption_method)
    ]

unfoldable pub parse_persisted_transaction :
    Option DecryptionProvider
    → PersistedTransaction
    → ChannelType
    → Option EncryptionParameters
    → Option String
    → Result Parsed
unfolding channel_key_and_method
parse_persisted_transaction provider persisted channel_type channel_key encryption_method =
    elim (given persisted.contents) [
      | true ↦ do
        throw_if (is_encrypted channel_type)
            "Clear transactions are not allowed in encrypted channel"
        throw_if
            (given persisted.encrypted_data
              || given persisted.encryption_method
              || is_some persisted.keys)
            "only the property \"data\" is allowed for clear transaction"
        ok (record {
          transaction = clear_transaction (get_or persisted.contents "");
          channel_key = none;
          encryption_method = none;
        })
      | false ↦ elim (given persisted.encrypted_data) [
        | true ↦ do
          throw_if (is_clear channel_type) "Encrypted transactions are not allowed in clear channel"
          found ← channel_key_and_method provider persisted channel_key encryption_method
          ok (record {
            transaction = encrypted_transaction (get_or persisted.encrypted_data "") found.0;
            channel_key = some found.0;
            encryption_method = found.1;
          })
        | false ↦ err "Transaction must have a property \"data\" or \"encryptedData\""
      ]
    ]
