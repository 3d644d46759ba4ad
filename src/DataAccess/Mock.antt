-- ===== src/DataAccess/Mock.antt =====
-- The data access that keeps its index in memory, packages/data-access/src/mock-data-access.ts.
use request_network.Base.{String, List, Result, ok, ◌>>=◌}
use request_network.TransactionManager.{PersistedTransaction}
use request_network.DataAccess.Block.{Block}
use request_network.DataAccess.Indexer.{Entry, Index, add_index}
use request_network.DataAccess.Pending.{PendingStore, write_transaction}

module _ {S : Type 0} (append : S → String → Result (S × Entry)) (stringify : Block → String) where
  -- `persistTransaction`: the transaction is written, and its place indexed at once.
  unfoldable pub persist_and_index :
      S
      → PendingStore
      → Index
      → PersistedTransaction
      → String
      → List String
      → Result (S × PendingStore × Index × Entry)
  unfolding add_index
  persist_and_index s store index transaction channel_id topics = do
    result ← write_transaction append stringify s store transaction channel_id topics
    ok (result.0, result.1, add_index index channel_id topics result.2.id, result.2)
