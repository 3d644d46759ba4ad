-- ===== src/DataAccess/Tests.antt =====
-- Blocks, their positions and the index on small data.
use request_network.Base.{
  ◌≡◌, refl, String, none, some, [], ◌∷◌, Result, ok, err, first_two, str_length, lookup, insert,
  if◌then◌else◌, str_eq, ℕ, suc, false,
}
use request_network.Base.Int.{pos}
use request_network.Amount.Print.{print}
use request_network.MultiFormat.{any, is_deserializable_string}
use request_network.TransactionManager.{PersistedTransaction}
use request_network.TransactionManager.Factory.{clear_persisted}
use request_network.DataAccess.Block.{
  Block, MaybeBlock, create_empty_block, every, is_hash, parse_block, push_transaction, add_topics,
  refers, parse_block_header, get_transaction_from_position, at,
  get_transaction_position_from_channel_id, distinct_from, same_position, position_text,
  insert_by_text, sort_positions,
}
use request_network.DataAccess.Pending.{
  PendingStore, write_transaction, add_pending, get_timestamped_by_channel_id,
}
use request_network.DataAccess.Pending.Laws.{
  still_pending, pending_item, get_timestamped_by_channel_id-written,
}
use request_network.DataAccess.Block.Laws.{
  IsBlock, create_empty_block-IsBlock, push_transaction-IsBlock,
}
use request_network.DataAccess.Block.Parsing.{maybe_of}
use request_network.DataAccess.Topics.{
  ChannelTransaction, Timestamped, TimestampBoundaries, topic_transactions, pending_transaction,
  to_timestamped, get_channels_by_multiple_topics, or_minus_one, or_number, is_between, is_updated,
}
use request_network.DataAccess.Topics.Laws.{
  of_channel, has_update, get_channels_by_multiple_topics_lem,
}
use request_network.DataAccess.Pending.{find_by_topics, find_topic, includes_topic}
use request_network.Base.{List, map, get_or, Dict, Option}
use request_network.Base.{◌≢◌}
use request_network.DataAccess.Indexer.{
  Index, array_get, parse_documents, parse_entries, index_items, items_of, confirmed, Entry,
  add_index, get_indexed_by_channel_id,
}
use request_network.DataAccess.Indexer.Laws.{indexed, get_indexed_by_channel_id-written}

abbrev id : String
id = "010123456789abcdef0123456789abcdef0123456789abcdef0123456789abcdef"

abbrev transaction : PersistedTransaction
transaction = clear_persisted "1"

abbrev block : Block
block = record {
  channel_ids = (id, pos 0 ∷ []) ∷ [];
  topics = (id, id ∷ []) ∷ [];
  version = "0.1.0";
  transactions = transaction ∷ [];
}

abbrev parse : String → Result MaybeBlock
parse s = if str_eq s "block" then ok (maybe_of block) else err "Unexpected end of JSON input"

logic : Unit {0}
unfolding every is_hash any is_deserializable_string first_two str_length push_transaction
    create_empty_block lookup insert add_topics parse_block parse_block_header refers at
    get_transaction_from_position get_transaction_position_from_channel_id distinct_from
    same_position position_text insert_by_text sort_positions print write_transaction add_pending
    topic_transactions pending_transaction or_minus_one or_number is_between is_updated
    find_by_topics find_topic includes_topic has_update
logic = tt

-- The texts of positions are sorted, not the positions.
sorted : sort_positions (distinct_from [] (pos 2 ∷ pos 10 ∷ pos 2 ∷ [])) ≡ pos 10 ∷ pos 2 ∷ []
unfolding logic
sorted = refl

block-IsBlock : IsBlock block
unfolding logic
block-IsBlock = (refl, refl, refl, refl, refl, refl)

push_transaction-IsBlock_example : IsBlock block
unfolding logic
push_transaction-IsBlock_example =
    push_transaction-IsBlock create_empty_block transaction id (id ∷ []) create_empty_block-IsBlock
      refl refl refl refl

abbrev entry : Entry
entry = record {
  id = "place";
  meta = record {
    state = confirmed;
    timestamp = 5;
    block_number = some 4;
    block_timestamp = some 5;
    smart_contract_address = none;
    transaction_hash = none;
    size = none;
  };
  contents = "block";
}

abbrev earlier : Entry
earlier = record entry { id = "earlier" }

abbrev by_place : List String → Result (List Entry)
by_place (a ∷ b ∷ places) = ok (earlier ∷ entry ∷ [])
by_place (a ∷ []) = ok (earlier ∷ [])
by_place [] = ok []

abbrev index : Index
index = record { channel_to_locations = (id, "earlier" ∷ []) ∷ []; topic_to_channels = [] }

get_indexed_by_channel_id-written_example :
    (get_indexed_by_channel_id parse by_place (add_index index id (id ∷ []) "place") id
      ≡ ok (indexed earlier id transaction ∷ indexed entry id transaction ∷ []))
    × ((j : String)
        → j ≢ id
        → get_indexed_by_channel_id parse by_place (add_index index id (id ∷ []) "place") j
          ≡ get_indexed_by_channel_id parse by_place index j)
unfolding logic array_get get_indexed_by_channel_id parse_documents parse_entries index_items
    items_of
get_indexed_by_channel_id-written_example =
    get_indexed_by_channel_id-written parse by_place index (earlier ∷ []) entry transaction id
      (id ∷ []) {b = block} {old = indexed earlier id transaction ∷ []} refl refl refl refl refl
      refl refl refl refl

-- The storage has not indexed the entry yet.
abbrev store : PendingStore
store = (id, pending_item transaction (id ∷ []) entry) ∷ []

get_timestamped_by_channel_id-written_example :
    (get_timestamped_by_channel_id (λ location. ok []) (λ channel. ok []) store id
      ≡ ok (store, still_pending false transaction entry))
    × ((j : String)
        → lookup j store
          ≡ (if str_eq id j then some (pending_item transaction (id ∷ []) entry) else none))
unfolding logic
get_timestamped_by_channel_id-written_example =
    get_timestamped_by_channel_id-written (λ location. ok []) (λ channel. ok [])
      (λ (s : ℕ) (text : String). ok (suc s, entry)) (λ b. "block") 0 [] transaction id (id ∷ [])
      {found = []} {l = []} refl refl refl

-- One pending transaction of the channel, at the boundaries.
abbrev boundaries : Option TimestampBoundaries
boundaries = some (record { from = some 5; to = some 5 })

abbrev found : List ChannelTransaction
found = record { channel_id = id; block_timestamp = pos 5; transaction = transaction } ∷ []

get_channels_by_multiple_topics_example :
    (channels : Dict (List Timestamped)) × (get_channels_by_multiple_topics
        (λ topics. ok [])
        store
        (id ∷ [])
        boundaries
      ≡ ok channels)
    × ((c : String)
        → get_or (lookup c channels) []
          ≡ map to_timestamped (if has_update boundaries c found then of_channel c found else []))
unfolding logic
get_channels_by_multiple_topics_example =
    get_channels_by_multiple_topics_lem (λ topics. ok []) store (id ∷ []) boundaries {indexed = []}
      refl
