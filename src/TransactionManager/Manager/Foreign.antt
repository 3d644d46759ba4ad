-- ===== src/TransactionManager/Manager/Foreign.antt =====
-- A clear transaction at the start of a channel, as `persistTransaction` of transaction-manager.ts
-- takes it.
use request_network.Base.{◌≡◌, refl, false, String, none, List, ◌∷◌, ok, str_eq}
use request_network.Encryption.{EncryptionParameters}
use request_network.TransactionManager.{TimestampedTransaction, DecryptionProvider, Environment}
use request_network.Base.{Option}
use request_network.TransactionManager.Transactions.{hash_of}
use request_network.TransactionManager.Channels.Clear.{
  IsClear, get_channel_type_and_channel_key-clear,
}
use request_network.TransactionManager.Factory.{clear_persisted}
use request_network.TransactionManager.Manager.{DataAccess, prepare, existing_channel}
use request_network.TransactionManager.Manager.Sending.{create-clear}

module _ {B S : Type 0} (env : Environment B) (provider : Option DecryptionProvider)
    (access : DataAccess S) where
  -- Where the first transaction that data access returns for a channel is clear and is JSON, whatever
  -- its hash and whatever follows it, data that are added to the channel are sent in clear, whatever
  -- encryption parameters are given.
  pub prepare-foreign :
      (s : S) (contents channel_id : String) (params : List EncryptionParameters)
      (t : TimestampedTransaction) (ts : List TimestampedTransaction) {hash json : String}
      → access.get s channel_id ≡ ok (t ∷ ts)
      → IsClear env provider t
      → hash_of env contents ≡ ok hash
      → env.sorted_json contents ≡ ok json
      → str_eq channel_id hash ≡ false
      → prepare env provider access s contents channel_id params
        ≡ ok (record {
          transaction = clear_persisted contents;
          encryption_method = none;
          hash = hash;
        })
  unfolding prepare existing_channel
  prepare-foreign s contents channel_id params t ts got one hashed parsed new =
      rw
        (
          prepare,
          hashed,
          new,
          got,
          get_channel_type_and_channel_key-clear env provider t ts one,
          create-clear env provider access contents parsed,
        )
        refl
