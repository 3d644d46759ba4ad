-- ===== src/TransactionManager/Manager.antt =====
-- The class of packages/transaction-manager/src/transaction-manager.ts. The data access that it is
-- built on is an interface, and the event that data access emits later is not part of the result.
pub mod View
pub mod Sending
pub mod Refinement
pub mod Reading
pub mod Foreign
use request_network.Base.{
  Bool, true, false, String, Option, none, some, List, [], ◌∷◌, ◌++◌, Dict, insert, Result, ok, err,
  ◌>>=◌, str_eq, append,
}
use request_network.Encryption.{EncryptionParameters}
use request_network.TransactionManager.{
  PersistedTransaction, TimestampedTransaction, IgnoredTransaction, ChannelType, unknown, clear,
  encrypted, DecryptionProvider, Environment,
}
use request_network.TransactionManager.Transactions.{hash_of}
use request_network.TransactionManager.Channels.{
  Channel, Cleaned, get_channel_type_and_channel_key, decrypt_and_clean_channel,
}
use request_network.TransactionManager.Factory.{
  create_clear_transaction, create_encrypted_transaction_in_new_channel,
  create_encrypted_transaction,
}

-- `IDataAccess`, over the state that it keeps: `persist` takes the transaction, the channel and the
-- topics.
pub record DataAccess (S : Type 0) : Type 0 where
  pub persist : S → PersistedTransaction → String → List String → Result S
  pub get : S → String → Result (List TimestampedTransaction)

-- What the manager sends to data access, with the encryption method that it returns.
pub record Prepared : Type 0 where
  pub transaction : PersistedTransaction
  pub encryption_method : Option String
  pub hash : String

-- The result of `parseMultipleChannels`.
pub record CleanedChannels : Type 0 where
  pub transactions : Dict (List (Option TimestampedTransaction))
  pub ignored_transactions : Dict (List (Option IgnoredTransaction))

module _ {B S : Type 0} (env : Environment B) (provider : Option DecryptionProvider)
    (access : DataAccess S) where
  -- The first transaction of a channel.
  unfoldable pub new_channel :
      String → List EncryptionParameters → Result (PersistedTransaction × Option String)
  new_channel contents [] = do
    transaction ← create_clear_transaction env contents
    ok (transaction, none)
  new_channel contents (p ∷ l) = do
    transaction ← create_encrypted_transaction_in_new_channel env contents (p ∷ l)
    ok (transaction, transaction.encryption_method)

  -- A transaction of a channel that exists.
  unfoldable pub existing_channel :
      Channel
      → String
      → String
      → List EncryptionParameters
      → Result (PersistedTransaction × Option String)
  existing_channel channel contents channel_id encryption_params = elim channel.channel_type [
    | unknown ↦ err (append "Impossible to retrieve the channel: " channel_id)
    | clear ↦ do transaction ← create_clear_transaction env contents; ok (transaction, none)
    | encrypted ↦ elim channel.channel_key [
      | none ↦ err (append "Impossible to decrypt the channel key of: " channel_id)
      | some key ↦ do
        transaction ← create_encrypted_transaction env contents key encryption_params
        ok (transaction, channel.encryption_method)
    ]
  ]

  unfoldable pub prepare : S → String → String → List EncryptionParameters → Result Prepared
  unfolding new_channel existing_channel
  prepare s transaction_data channel_id encryption_params = do
    hash ← hash_of env transaction_data
    made ← elim (str_eq channel_id hash) [
      | true ↦ new_channel transaction_data encryption_params
      | false ↦ do
        transactions ← access.get s channel_id
        existing_channel (get_channel_type_and_channel_key env provider transactions)
            transaction_data channel_id encryption_params
    ]
    ok (record { transaction = made.0; encryption_method = made.1; hash = hash })

  unfoldable pub persist_transaction :
      S → String → String → List String → List EncryptionParameters → Result (S × Option String)
  unfolding prepare
  persist_transaction s transaction_data channel_id topics encryption_params = do
    prepared ← prepare s transaction_data channel_id encryption_params
    next ← access.persist s prepared.transaction channel_id (topics ++ prepared.hash ∷ [])
    ok (next, prepared.encryption_method)

  unfoldable pub get_transactions_by_channel_id : S → String → Result Cleaned
  get_transactions_by_channel_id s channel_id = do
    transactions ← access.get s channel_id
    decrypt_and_clean_channel env provider channel_id transactions

  -- `getChannelsByTopic` and `getChannelsByMultipleTopics` clean the channels that they get.
  unfoldable pub parse_multiple_channels :
      Dict (List TimestampedTransaction) → CleanedChannels → Result CleanedChannels
  parse_multiple_channels [] accumulator = ok accumulator
  parse_multiple_channels ((channel_id, transactions) ∷ channels) accumulator = do
    cleaned ← decrypt_and_clean_channel env provider channel_id transactions
    parse_multiple_channels channels (record {
      transactions = insert channel_id cleaned.transactions accumulator.transactions;
      ignored_transactions =
          insert channel_id cleaned.ignored_transactions accumulator.ignored_transactions;
    })
