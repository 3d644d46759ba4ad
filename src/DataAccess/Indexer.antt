-- ===== src/DataAccess/Indexer.antt =====
-- The index in memory, packages/data-access/src/in-memory-indexer.ts. The storage that it reads is an
-- interface.
pub mod Laws
use request_network.Base.{
  ℕ, Bool, true, false, String, Option, none, some, List, [], ◌∷◌, ◌++◌, Dict, lookup, insert,
  filter, get_or, str_eq, Result, ok, err, ◌>>=◌,
}
use request_network.Base.Int.{ℤ}
use request_network.TransactionManager.{PersistedTransaction}
use request_network.DataAccess.Block.{Block, MaybeBlock, parse_block, get_transaction_from_position}

-- `StorageTypes.ContentState`
pub data ContentState : Type 0 where
  pending confirmed : ContentState

abbrev pub is_confirmed : ContentState → Bool
is_confirmed confirmed = true
is_confirmed pending = false

-- `StorageTypes.IEntryMetadata`, as far as it is read; a property that may be missing is an `Option`.
pub record EntryMeta : Type 0 where
  pub state : ContentState
  pub timestamp : ℕ
  pub block_number : Option ℕ
  pub block_timestamp : Option ℕ
  pub smart_contract_address : Option String
  pub transaction_hash : Option String
  pub size : Option ℕ

-- `StorageTypes.IEntry`
pub record Entry : Type 0 where
  pub id : String
  pub meta : EntryMeta
  pub contents : String

-- `StorageTypes.IIndexedTransaction`; `size` is the number that the code writes as a text, and the
-- properties of the transaction are those of `transaction`.
pub record IndexedTransaction : Type 0 where
  pub block_number : ℕ
  pub block_timestamp : ℕ
  pub channel_id : String
  pub hash : String
  pub size : ℕ
  pub smart_contract_address : String
  pub transaction_hash : String
  pub transaction : PersistedTransaction

-- `ArrayMap`
abbrev pub ArrayMap : Type 0
ArrayMap = Dict (List String)

unfoldable pub array_get : ArrayMap → String → List String
array_get m key = get_or (lookup key m) []

unfoldable pub array_add : ArrayMap → String → String → ArrayMap
unfolding array_get
array_add m key value = insert key (array_get m key ++ value ∷ []) m

pub record Index : Type 0 where
  pub channel_to_locations : ArrayMap
  pub topic_to_channels : ArrayMap

unfoldable pub add_topic_channels : ArrayMap → List String → String → ArrayMap
unfolding array_add
add_topic_channels m [] channel_id = m
add_topic_channels m (topic ∷ topics) channel_id =
    add_topic_channels (array_add m topic channel_id) topics channel_id

unfoldable pub add_index : Index → String → List String → String → Index
unfolding array_add add_topic_channels
add_index index channel_id topics location = record {
  channel_to_locations = array_add index.channel_to_locations channel_id location;
  topic_to_channels = add_topic_channels index.topic_to_channels topics channel_id;
}

-- A channel of a stored block, with the transaction at its first position, which may be undefined.
pub record Item : Type 0 where
  pub location_id : String
  pub item_channel_id : String
  pub meta : EntryMeta
  pub item_transaction : Option PersistedTransaction

abbrev pub first_position : List ℤ → Option ℤ
first_position [] = none
first_position (p ∷ l) = some p

unfoldable pub items_of : Entry → Block → Dict (List ℤ) → List Item
items_of entry block [] = []
items_of entry block ((channel_id, positions) ∷ channels) =
    record {
      location_id = entry.id;
      item_channel_id = channel_id;
      meta = entry.meta;
      item_transaction = elim (first_position positions) [
        | some index ↦ get_transaction_from_position block index
        | none ↦ none
      ];
    }
    ∷ items_of entry block channels

module _ (parse : String → Result MaybeBlock) (read_many : List String → Result (List Entry)) where
  unfoldable pub parse_entries : List Entry → Result (List Item)
  unfolding items_of
  parse_entries [] = ok []
  parse_entries (entry ∷ entries) = do
    block ← parse_block parse entry.contents
    rest ← parse_entries entries
    ok (items_of entry block block.channel_ids ++ rest)

  -- An item whose transaction is undefined makes the reading of its properties throw.
  unfoldable pub index_items : List Item → Result (List IndexedTransaction)
  index_items [] = ok []
  index_items (item ∷ items) = elim item.item_transaction [
    | none ↦ err "Cannot read properties of undefined (reading 'data')"
    | some transaction ↦ do
      rest ← index_items items
      ok (
          record {
            block_number = get_or item.meta.block_number 0;
            block_timestamp = get_or item.meta.block_timestamp 0;
            channel_id = item.item_channel_id;
            hash = item.location_id;
            size = get_or item.meta.size 0;
            smart_contract_address = get_or item.meta.smart_contract_address "";
            transaction_hash = get_or item.meta.transaction_hash "";
            transaction = transaction;
          }
          ∷ rest)
  ]

  unfoldable pub parse_documents : List String → Result (List IndexedTransaction)
  unfolding parse_entries index_items
  parse_documents locations = do
    entries ← read_many locations
    items ← parse_entries (filter (λ e. is_confirmed e.meta.state) entries)
    index_items items

  unfoldable pub get_transactions_by_storage_location : String → Result (List IndexedTransaction)
  unfolding parse_documents
  get_transactions_by_storage_location hash = parse_documents (hash ∷ [])

  unfoldable pub get_indexed_by_channel_id : Index → String → Result (List IndexedTransaction)
  unfolding parse_documents array_get
  get_indexed_by_channel_id index channel_id = do
    transactions ← parse_documents (array_get index.channel_to_locations channel_id)
    ok (filter (λ x. str_eq x.channel_id channel_id) transactions)

  unfoldable pub all_of : ArrayMap → List String → List String
  unfolding array_get
  all_of m [] = []
  all_of m (key ∷ keys) = array_get m key ++ all_of m keys

  unfoldable pub get_transactions_by_topics : Index → List String → Result (List IndexedTransaction)
  unfolding all_of parse_documents
  get_transactions_by_topics index topics =
      parse_documents (all_of index.channel_to_locations (all_of index.topic_to_channels topics))
