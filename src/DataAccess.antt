-- ===== src/DataAccess.antt =====
-- Data access, packages/data-access/src/: blocks of transactions with an index of channels, the
-- store of pending transactions, an index of stored blocks kept in memory, and the readings.
pub mod Block
pub mod Pending
pub mod Topics
pub mod Mock
pub mod Access
pub mod Indexer
mod Tests
