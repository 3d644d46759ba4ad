-- ===== src/TransactionManager/Manager/Sending.antt =====
-- What persistTransaction of transaction-manager.ts prepares for the data access, for data that are
-- sent in clear.
use request_network.Base.{
  ◌≡◌, refl, true, false, String, Option, none, List, [], ◌∷◌, ok, err, arith, str_eq, append,
}
use request_network.TransactionManager.{
  TimestampedTransaction, unknown, clear, DecryptionProvider, Environment,
}
use request_network.TransactionManager.Transactions.{hash_of}
use request_network.TransactionManager.Channels.{get_channel_type_and_channel_key, learn_all}
use request_network.TransactionManager.Channels.Clear.{get_channel_type_and_channel_key-clear}
use request_network.TransactionManager.Factory.{
  clear_persisted, create_clear_transaction, check_parsable,
}
use request_network.TransactionManager.Manager.{DataAccess, new_channel, existing_channel, prepare}
use request_network.TransactionManager.Manager.View.{Call, HoldsChannel}

module _ {B S : Type 0} (env : Environment B) (provider : Option DecryptionProvider)
    (access : DataAccess S) where
  pub create-clear :
      (d : String) {json : String}
      → env.sorted_json d ≡ ok json
      → create_clear_transaction env d ≡ ok (clear_persisted d)
  unfolding create_clear_transaction check_parsable
  create-clear d h = ground arith

  -- The channel of a list that holds data is clear.
  pub known-clear :
      (j : String) (l : List TimestampedTransaction) (d : String) (ds : List String)
      → HoldsChannel env j l (d ∷ ds)
      → get_channel_type_and_channel_key env provider l
        ≡ record { channel_type = clear; channel_key = none; encryption_method = none }
  known-clear j [] d ds h = absurd h
  known-clear j (t ∷ ts) d ds (hash, one, more) =
      get_channel_type_and_channel_key-clear env provider t ts (d, one.0, one.1, one.2)

  pub known-unknown :
      (j : String) (l : List TimestampedTransaction)
      → HoldsChannel env j l []
      → get_channel_type_and_channel_key env provider l
        ≡ record { channel_type = unknown; channel_key = none; encryption_method = none }
  unfolding get_channel_type_and_channel_key learn_all
  known-unknown j [] h = refl
  known-unknown j (t ∷ ts) h = absurd h

  abbrev pub Sent : S → Call → String → Type 0
  Sent s call hash =
      prepare env provider access s call.contents call.channel_id []
      ≡ ok (record {
        transaction = clear_persisted call.contents;
        encryption_method = none;
        hash = hash;
      })

  pub prepare-new :
      (s : S) (call : Call) {hash json : String}
      → hash_of env call.contents ≡ ok hash
      → env.sorted_json call.contents ≡ ok json
      → str_eq call.channel_id hash ≡ true
      → Sent s call hash
  unfolding prepare new_channel
  prepare-new s call hashed parsed same =
      rw (prepare, hashed, same, create-clear call.contents parsed) refl

  pub prepare-existing :
      (s : S) (call : Call) {hash json : String} (l : List TimestampedTransaction)
      → hash_of env call.contents ≡ ok hash
      → env.sorted_json call.contents ≡ ok json
      → str_eq call.channel_id hash ≡ false
      → access.get s call.channel_id ≡ ok l
      → get_channel_type_and_channel_key env provider l
        ≡ record { channel_type = clear; channel_key = none; encryption_method = none }
      → Sent s call hash
  unfolding prepare existing_channel
  prepare-existing s call l hashed parsed same got known =
      rw (prepare, hashed, same, got, known, create-clear call.contents parsed) refl

  pub prepare-missing :
      (s : S) (call : Call) {hash : String} (l : List TimestampedTransaction)
      → hash_of env call.contents ≡ ok hash
      → str_eq call.channel_id hash ≡ false
      → access.get s call.channel_id ≡ ok l
      → get_channel_type_and_channel_key env provider l
        ≡ record { channel_type = unknown; channel_key = none; encryption_method = none }
      → prepare env provider access s call.contents call.channel_id []
        ≡ err (append "Impossible to retrieve the channel: " call.channel_id)
  unfolding prepare existing_channel
  prepare-missing s call l hashed same got known = rw (prepare, hashed, same, got, known) refl
