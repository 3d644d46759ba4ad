-- ===== src/DataAccess/Topics.antt =====
-- The reading of channels by their topics in packages/data-access/src/data-read.ts, with the
-- transactions that it returns. What is returned of the storage (meta) is left out.
pub mod Laws
use request_network.Base.{
  ℕ, suc, Bool, true, false, ◌&&◌, String, Option, none, some, List, [], ◌∷◌, ◌++◌, map, filter,
  Dict, lookup, insert, get_or, leb, Result, ok, ◌>>=◌, if◌then◌else◌,
}
use request_network.Base.Int.{ℤ, pos, negsuc}
use request_network.Types.{TransactionState}
use request_network.TransactionManager.{PersistedTransaction}
use request_network.DataAccess.Indexer.{IndexedTransaction}
use request_network.DataAccess.Pending.{
  PendingItem, PendingStore, find_by_topics, includes_topic, or_undefined,
}

-- `ITimestampBoundaries`
pub record TimestampBoundaries : Type 0 where
  pub from : Option ℕ
  pub to : Option ℕ

-- An indexed or pending transaction of a channel; the time of a pending one may be -1.
pub record ChannelTransaction : Type 0 where
  pub channel_id : String
  pub block_timestamp : ℤ
  pub transaction : PersistedTransaction

-- `ITimestampedTransaction`
pub record Timestamped : Type 0 where
  pub state : TransactionState
  pub timestamp : ℤ
  pub transaction : PersistedTransaction

-- `x || -1`
unfoldable pub or_minus_one : Option ℕ → ℤ
or_minus_one (some (suc n)) = pos (suc n)
or_minus_one _ = negsuc 0

-- `x || y` on numbers
unfoldable pub or_number : Option ℕ → ℕ → ℕ
or_number (some (suc n)) m = suc n
or_number _ m = m

-- `Number.MAX_SAFE_INTEGER`
abbrev pub max_safe_integer : ℕ
max_safe_integer = 9007199254740991

abbrev pub indexed_transaction : IndexedTransaction → ChannelTransaction
indexed_transaction x = record {
  channel_id = x.channel_id;
  block_timestamp = pos x.block_timestamp;
  transaction = x.transaction;
}

unfoldable pub pending_transaction : String × PendingItem → ChannelTransaction
unfolding or_minus_one
pending_transaction (channel_id, item) = record {
  channel_id = channel_id;
  block_timestamp = or_minus_one item.storage_result.meta.block_timestamp;
  transaction = item.transaction;
}

unfoldable pub is_between : ℕ → ℕ → ℤ → Bool
is_between from to (pos n) = leb from n && leb n to
is_between from to (negsuc n) = false

-- The test of a transaction against the boundaries, which all pass where there are none.
unfoldable pub is_updated : Option TimestampBoundaries → ChannelTransaction → Bool
unfolding is_between or_number
is_updated none tx = true
is_updated (some updated_between) tx =
    is_between (or_number updated_between.from 0) (or_number updated_between.to max_safe_integer)
      tx.block_timestamp

unfoldable pub to_timestamped : ChannelTransaction → Timestamped
to_timestamped tx = record {
  state = TransactionState.confirmed;
  timestamp = tx.block_timestamp;
  transaction = record {
    contents = or_undefined tx.transaction.contents;
    encrypted_data = or_undefined tx.transaction.encrypted_data;
    keys = tx.transaction.keys;
    encryption_method = or_undefined tx.transaction.encryption_method;
  };
}

-- The reduction of the transactions into lists by channel.
unfoldable pub by_channels :
    Dict (List Timestamped) → List ChannelTransaction → Dict (List Timestamped)
unfolding to_timestamped
by_channels prev [] = prev
by_channels prev (curr ∷ txs) =
    by_channels
      (insert curr.channel_id (get_or (lookup curr.channel_id prev) [] ++ to_timestamped curr ∷ [])
        prev)
      txs

module _ (by_topics : List String → Result (List IndexedTransaction)) where
  -- The indexed transactions, and the pending ones after them.
  unfoldable pub topic_transactions : PendingStore → List String → Result (List ChannelTransaction)
  unfolding pending_transaction
  topic_transactions store topics = do
    result ← by_topics topics
    ok (map indexed_transaction result ++ map pending_transaction (find_by_topics store topics))

  unfoldable pub get_channels_by_multiple_topics :
      PendingStore → List String → Option TimestampBoundaries → Result (Dict (List Timestamped))
  unfolding topic_transactions is_updated by_channels includes_topic
  get_channels_by_multiple_topics store topics updated_between = do
    transactions ← topic_transactions store topics
    let channels = map (λ x. x.channel_id) (filter (is_updated updated_between) transactions)
    ok (by_channels [] (filter (λ tx. includes_topic channels tx.channel_id) transactions))

  unfoldable pub get_channels_by_topic :
      PendingStore → String → Option TimestampBoundaries → Result (Dict (List Timestamped))
  unfolding get_channels_by_multiple_topics
  get_channels_by_topic store topic updated_between =
      get_channels_by_multiple_topics store (topic ∷ []) updated_between
