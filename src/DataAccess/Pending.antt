-- ===== src/DataAccess/Pending.antt =====
-- The store of pending transactions (packages/data-access/src/pending-store.ts), the reading of a
-- channel (data-read.ts) and the writing of a transaction (data-write.ts). Of the results, what is
-- returned of the storage (meta) is left out, and a channel is read without timestamp boundaries,
-- which the code hands on to the index.
pub mod Laws
use request_network.Base.{
  Bool, false, ◌||◌, String, Option, none, some, List, [], ◌∷◌, ◌++◌, map, Dict, lookup, insert,
  Result, ok, ◌>>=◌, str_eq, given, if◌then◌else◌,
}
use request_network.Types.{TransactionState}
use request_network.TransactionManager.{PersistedTransaction, TimestampedTransaction}
use request_network.DataAccess.Block.{Block, create_empty_block, push_transaction}
use request_network.DataAccess.Indexer.{Entry, IndexedTransaction}

-- `PendingItem`
pub record PendingItem : Type 0 where
  pub topics : List String
  pub transaction : PersistedTransaction
  pub storage_result : Entry

abbrev pub PendingStore : Type 0
PendingStore = Dict PendingItem

-- `add` sets the item of the channel, and so replaces one that is there.
unfoldable pub add_pending : PendingStore → String → PendingItem → PendingStore
add_pending store channel_id item = insert channel_id item store

unfoldable pub remove_pending : PendingStore → String → PendingStore
remove_pending [] channel_id = []
remove_pending ((j, item) ∷ store) channel_id =
    let rest = remove_pending store channel_id in
    if str_eq j channel_id then rest else (j, item) ∷ rest

unfoldable pub includes_topic : List String → String → Bool
includes_topic [] topic = false
includes_topic (t ∷ topics) topic = str_eq t topic || includes_topic topics topic

-- `topics.find(…)`, by its truth value: the empty text that is found counts as none.
unfoldable pub find_topic : List String → List String → Bool
unfolding includes_topic
find_topic [] item_topics = false
find_topic (topic ∷ topics) item_topics =
    let rest = find_topic topics item_topics in
    if includes_topic item_topics topic then given (some topic) else rest

unfoldable pub find_by_topics : PendingStore → List String → List (String × PendingItem)
unfolding find_topic
find_by_topics [] topics = []
find_by_topics ((channel_id, item) ∷ store) topics =
    let rest = find_by_topics store topics in
    if find_topic topics item.topics then (channel_id, item) ∷ rest else rest

-- `x || undefined`
abbrev pub or_undefined : Option String → Option String
or_undefined o = if given o then o else none

unfoldable pub to_timestamped_transaction : IndexedTransaction → TimestampedTransaction
to_timestamped_transaction x = record {
  state = TransactionState.confirmed;
  transaction = record {
    contents = or_undefined x.transaction.contents;
    encrypted_data = or_undefined x.transaction.encrypted_data;
    keys = x.transaction.keys;
    encryption_method = or_undefined x.transaction.encryption_method;
  };
  timestamp = x.block_timestamp;
}

module _ (by_location : String → Result (List IndexedTransaction))
    (by_channel : String → Result (List IndexedTransaction)) where
  -- `getPending`: a transaction that the storage has indexed is pending no more.
  unfoldable pub get_pending :
      PendingStore → String → Result (PendingStore × List TimestampedTransaction)
  get_pending store channel_id = elim (lookup channel_id store) [
    | none ↦ ok (store, [])
    | some item ↦ do
      transactions ← by_location item.storage_result.id
      elim transactions [
        | t ∷ l ↦ ok (remove_pending store channel_id, [])
        | [] ↦ ok (
          store,
          record {
            state = TransactionState.pending;
            transaction = item.transaction;
            timestamp = item.storage_result.meta.timestamp;
          }
              ∷ [],
        )
      ]
  ]

  unfoldable pub get_timestamped_by_channel_id :
      PendingStore → String → Result (PendingStore × List TimestampedTransaction)
  unfolding get_pending to_timestamped_transaction
  get_timestamped_by_channel_id store channel_id = do
    pending ← get_pending store channel_id
    transactions ← by_channel channel_id
    ok (pending.0, map to_timestamped_transaction transactions ++ pending.1)

-- `persistTransaction` of data-write.ts; `append` stores a text, and `stringify` is
-- `JSON.stringify` of a block.
module _ {S : Type 0} (append : S → String → Result (S × Entry)) (stringify : Block → String) where
  unfoldable pub write_transaction :
      S
      → PendingStore
      → PersistedTransaction
      → String
      → List String
      → Result (S × PendingStore × Entry)
  write_transaction s store transaction channel_id topics = do
    updated_block ← push_transaction create_empty_block transaction channel_id topics
    stored ← append s (stringify updated_block)
    ok (
      stored.0,
      add_pending store channel_id
          (record { topics = topics; transaction = transaction; storage_result = stored.1 }),
      stored.1,
    )
