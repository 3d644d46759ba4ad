-- ===== src/TransactionManager/Transactions.antt =====
-- The classes of transactions: packages/transaction-manager/src/clear-transaction.ts and
-- encrypted-transaction.ts. The two caches of the second hold what the methods compute again.
use request_network.Base.{String, Result, ok, err, ◌>>=◌, lower}
use request_network.MultiFormat.{serialize, deserialize}
use request_network.Encryption.{EncryptionParameters}
use request_network.Encryption.Methods.{decrypt}
use request_network.TransactionManager.{Environment}

-- `ITransaction`: an object of class `ClearTransaction` or `EncryptedTransaction`.
pub data Transaction : Type 0 where
  clear_transaction : (contents : String) → Transaction
  encrypted_transaction :
      (persisted_data : String) (channel_key : EncryptionParameters) → Transaction

module _ {B : Type 0} (env : Environment B) where
  -- `MultiFormat.serialize(normalizeKeccak256Hash(JSON.parse(contents)))`
  unfoldable pub hash_of : String → Result String
  hash_of contents = do
    json ← env.sorted_json contents
    serialize (record { type = "keccak256"; value = env.keccak256 (lower json) })

  unfoldable pub get_data : Transaction → Result String
  get_data (clear_transaction contents) = ok contents
  get_data (encrypted_transaction persisted_data channel_key) =
      let decrypted = deserialize persisted_data >>= λ d. decrypt env.encryption d channel_key in
      elim decrypted [
        | ok contents ↦ ok contents
        | err e ↦ err "Impossible to decrypt the transaction"
      ]

  unfoldable pub get_hash : Transaction → Result String
  get_hash (clear_transaction contents) = hash_of contents
  get_hash (encrypted_transaction persisted_data channel_key) = do
    contents ← get_data (encrypted_transaction persisted_data channel_key)
    elim (hash_of contents) [
      | ok hash ↦ ok hash
      | err e ↦ err "Impossible to JSON parse the decrypted transaction data"
    ]

  -- The text of the error, which is empty where there is none.
  unfoldable pub get_error : Transaction → String
  get_error (clear_transaction contents) = elim (env.sorted_json contents) [
    | ok json ↦ ""
    | err e ↦ "Impossible to JSON parse the transaction"
  ]
  get_error (encrypted_transaction persisted_data channel_key) =
      elim (get_data (encrypted_transaction persisted_data channel_key)) [
        | err e ↦ e
        | ok contents ↦ elim (env.sorted_json contents) [
          | ok json ↦ ""
          | err e ↦ "Impossible to JSON parse the decrypted transaction data"
        ]
      ]
