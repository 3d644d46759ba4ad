-- ===== src/TransactionManager.antt =====
-- The transaction manager, packages/transaction-manager/src/, with the data of
-- packages/types/src/transaction-types.ts and decryption-provider-types.ts. A child holds the two
-- classes of transactions, one the parser, one the channels, one the factory and one the manager.
pub mod Transactions
pub mod Parser
pub mod Channels
pub mod Factory
pub mod Manager
pub mod Instance
mod Tests
use request_network.Base.{ℕ, Bool, String, Option, List, Dict, Result}
use request_network.Types.{Identity, TransactionState}
use request_network.MultiFormat.{Deserialized}
use request_network.Encryption.{EncryptionParameters}
use request_network.Encryption.Library.{EncryptionLibrary}

-- `IPersistedTransaction`; `contents` is its `data`.
pub record PersistedTransaction : Type 0 where
  pub contents : Option String
  pub encrypted_data : Option String
  pub keys : Option (Dict String)
  pub encryption_method : Option String

-- `ITimestampedTransaction`
pub record TimestampedTransaction : Type 0 where
  pub state : TransactionState
  pub transaction : PersistedTransaction
  pub timestamp : ℕ

-- `IIgnoredTransaction`
pub record IgnoredTransaction : Type 0 where
  pub reason : String
  pub transaction : TimestampedTransaction

pub data ChannelType : Type 0 where
  unknown clear encrypted : ChannelType

-- `IDecryptionProvider`: each call may be rejected.
pub record DecryptionProvider : Type 0 where
  pub is_identity_registered : Identity → Result Bool
  pub decrypt : Deserialized → Identity → Result String

-- What the package calls: `sorted_json` is `JSON.stringify(deepSort(JSON.parse(text)))`, which
-- throws where the text is no JSON, and `keccak256` the hash of the UTF-8 bytes of a text.
pub record Environment (B : Type 0) : Type 0 where
  pub encryption : EncryptionLibrary B
  pub sorted_json : String → Result String
  pub keccak256 : String → String
