-- ===== src/DataAccess/Access.antt =====
-- Data access as the transaction manager takes it: the reader of packages/data-access/src/
-- data-read.ts and the writer of data-write.ts over one pending store and one storage, as
-- combined-data-access.ts puts them together. A reading here leaves the pending store as it is: that
-- it removes an item that is indexed changes no later reading of the channel.
pub mod Laws
use request_network.Base.{String, Result, ok, ◌>>=◌}
use request_network.TransactionManager.Manager.{DataAccess}
use request_network.DataAccess.Block.{Block}
use request_network.DataAccess.Indexer.{Entry, IndexedTransaction}
use request_network.DataAccess.Pending.{
  PendingStore, write_transaction, get_timestamped_by_channel_id,
}
use request_network.Base.{List}

-- What the storage and its index offer, over their state: `IStorageWrite` and `IIndexer`.
pub record Storage (S : Type 0) : Type 0 where
  pub append : S → String → Result (S × Entry)
  pub by_location : S → String → Result (List IndexedTransaction)
  pub by_channel : S → String → Result (List IndexedTransaction)

module _ {S : Type 0} (storage : Storage S) (stringify : Block → String) where
  unfoldable pub combined_data_access : DataAccess (S × PendingStore)
  combined_data_access = record {
    persist = λ s transaction channel_id topics.
        write_transaction storage.append stringify s.0 s.1 transaction channel_id topics >>= λ r.
        ok (r.0, r.1);
    get = λ s channel_id.
        get_timestamped_by_channel_id (storage.by_location s.0) (storage.by_channel s.0) s.1
          channel_id
        >>= λ r. ok r.1;
  }
