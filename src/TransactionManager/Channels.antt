-- ===== src/TransactionManager/Channels.antt =====
-- The channels: packages/transaction-manager/src/channel-parser.ts.
pub mod Cleaning
pub mod Clear
pub mod Encrypted
pub mod Unlocked
pub mod Keys
pub mod Opening
use request_network.Base.{
  Bool, true, false, not, ◌&&◌, ◌||◌, String, Option, none, some, List, [], ◌∷◌, map, Result, ok,
  err, ◌>>=◌, if◌then◌else◌, str_eq, is_some, starts_with,
}
use request_network.Encryption.{EncryptionParameters}
use request_network.TransactionManager.{
  PersistedTransaction, TimestampedTransaction, IgnoredTransaction, ChannelType, unknown, clear,
  encrypted, DecryptionProvider, Environment,
}
use request_network.TransactionManager.Transactions.{get_data, get_hash, get_error}
use request_network.TransactionManager.Parser.{Parsed, parse_persisted_transaction, is_clear}

abbrev pub is_unknown : ChannelType → Bool
is_unknown unknown = true
is_unknown _ = false

-- What is known of a channel: the result of `getChannelTypeAndChannelKey`.
pub record Channel : Type 0 where
  pub channel_type : ChannelType
  pub channel_key : Option EncryptionParameters
  pub encryption_method : Option String

-- `IValidAndIgnoredTransactions`, of which one is null.
pub data Outcome : Type 0 where
  valid : TimestampedTransaction → Outcome
  ignored : IgnoredTransaction → Outcome

abbrev pub valid_of : Outcome → Option TimestampedTransaction
valid_of (valid t) = some t
valid_of (ignored i) = none

abbrev pub ignored_of : Outcome → Option IgnoredTransaction
ignored_of (valid t) = none
ignored_of (ignored i) = some i

-- What `decryptAndCleanChannel` resolves to.
pub record Cleaned : Type 0 where
  pub encryption_method : Option String
  pub transactions : List (Option TimestampedTransaction)
  pub ignored_transactions : List (Option IgnoredTransaction)

abbrev pub reject : String → TimestampedTransaction → Outcome
reject reason t = ignored (record { reason = reason; transaction = t })

-- The type of the channel, by the transaction that was parsed first.
abbrev pub type_of : Parsed → ChannelType
type_of parsed = if is_some parsed.channel_key then encrypted else clear

abbrev pub keep : String → TimestampedTransaction → Outcome
keep contents t = valid (record {
  state = t.state;
  transaction = record {
    contents = some contents;
    encrypted_data = none;
    keys = none;
    encryption_method = none;
  };
  timestamp = t.timestamp;
})

module _ {B : Type 0} (env : Environment B) (provider : Option DecryptionProvider) where
  -- One transaction of `getChannelTypeAndChannelKey`.
  unfoldable pub learn : Channel → TimestampedTransaction → Channel
  learn channel t =
      if is_clear channel.channel_type || is_some channel.channel_key
      then channel
      else elim (parse_persisted_transaction provider t.transaction channel.channel_type
          channel.channel_key channel.encryption_method) [
            | err message ↦
                if starts_with message "Impossible to decrypt the channel key from this transaction"
                  && is_unknown channel.channel_type
                then record channel {
                  channel_type = encrypted;
                  encryption_method = t.transaction.encryption_method;
                }
                else channel
            | ok parsed ↦
                if not (str_eq (get_error env parsed.transaction) "") then channel else record {
                  channel_type = type_of parsed;
                  channel_key = parsed.channel_key;
                  encryption_method = parsed.encryption_method;
                }
          ]

  unfoldable pub learn_all : Channel → List TimestampedTransaction → Channel
  unfolding learn
  learn_all channel [] = channel
  learn_all channel (t ∷ l) = learn_all (learn channel t) l

  -- `getChannelTypeAndChannelKey`, whose channel identifier is not used.
  unfoldable pub get_channel_type_and_channel_key : List TimestampedTransaction → Channel
  unfolding learn_all
  get_channel_type_and_channel_key transactions =
      learn_all (record { channel_type = unknown; channel_key = none; encryption_method = none })
        transactions

  -- The first valid transaction must have the channel identifier as its hash, and fixes the type and
  -- the encryption method; the pair holds both.
  unfoldable pub settle :
      String → Parsed → ChannelType × Option String → Result (Option (ChannelType × Option String))
  settle channel_id parsed (channel_type, encryption_method) = elim (is_unknown channel_type) [
    | false ↦ ok (some (channel_type, encryption_method))
    | true ↦ do
      hash ← get_hash env parsed.transaction
      ok (if str_eq hash channel_id then some (type_of parsed, parsed.encryption_method) else none)
  ]

  -- What follows once the channel is settled, or is not.
  unfoldable pub finish :
      Parsed
      → TimestampedTransaction
      → ChannelType × Option String
      → Option (ChannelType × Option String)
      → Result (Outcome × (ChannelType × Option String))
  finish parsed t known none = ok (
    reject "as first transaction, the hash of the transaction do not match the channelId" t,
    known,
  )
  finish parsed t known (some next) = do
    contents ← get_data env parsed.transaction
    ok (keep contents t, next)

  -- One transaction of `decryptAndCleanChannel`.
  unfoldable pub clean :
      String
      → Option EncryptionParameters
      → ChannelType × Option String
      → TimestampedTransaction
      → Result (Outcome × (ChannelType × Option String))
  unfolding settle finish
  clean channel_id channel_key (channel_type, encryption_method) t =
      elim (parse_persisted_transaction provider t.transaction channel_type channel_key
        encryption_method) [
          | err message ↦ ok (reject message t, (channel_type, encryption_method))
          | ok parsed ↦ elim (str_eq (get_error env parsed.transaction) "") [
            | false ↦
                ok (reject (get_error env parsed.transaction) t, (channel_type, encryption_method))
            | true ↦
                settle channel_id parsed (channel_type, encryption_method)
                >>= finish parsed t (channel_type, encryption_method)
          ]
        ]

  unfoldable pub clean_all :
      String
      → Option EncryptionParameters
      → ChannelType × Option String
      → List TimestampedTransaction
      → Result (List Outcome × Option String)
  unfolding clean
  clean_all channel_id channel_key known [] = ok ([], known.1)
  clean_all channel_id channel_key known (t ∷ l) = do
    first ← clean channel_id channel_key known t
    rest ← clean_all channel_id channel_key first.1 l
    ok (first.0 ∷ rest.0, rest.1)

  unfoldable pub decrypt_and_clean_channel : String → List TimestampedTransaction → Result Cleaned
  unfolding get_channel_type_and_channel_key clean_all
  decrypt_and_clean_channel channel_id transactions =
      let found = get_channel_type_and_channel_key transactions in
      do
        outcomes ← clean_all channel_id found.channel_key (unknown, none) transactions
        ok (record {
          encryption_method = outcomes.1;
          transactions = map valid_of outcomes.0;
          ignored_transactions = map ignored_of outcomes.0;
        })
