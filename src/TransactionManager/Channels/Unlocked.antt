-- ===== src/TransactionManager/Channels/Unlocked.antt =====
-- The parsing of a transaction of an encrypted channel whose key is known, in
-- packages/transaction-manager/src/transactions-parser.ts.
use request_network.Base.{
  ◌≡◌, refl, true, String, Option, none, some, List, [], ◌∷◌, Dict, ok, ◌>>=◌, truthy,
}
use request_network.Encryption.{EncryptionParameters}
use request_network.TransactionManager.{
  TimestampedTransaction, unknown, encrypted, DecryptionProvider, Environment,
}
use request_network.TransactionManager.Transactions.{
  encrypted_transaction, hash_of, get_hash, get_error,
}
use request_network.TransactionManager.Parser.{
  Parsed, decrypt_channel_key, channel_key_and_method, parse_persisted_transaction,
}
use request_network.TransactionManager.Channels.{Channel, learn, learn_all}
use request_network.TransactionManager.Channels.Encrypted.{Opens}
use request_network.TransactionManager.Factory.{encrypted_persisted}

module _ {B : Type 0} (env : Environment B) (provider : Option DecryptionProvider)
    (key : EncryptionParameters) where
  abbrev pub method : Option String
  method = some "ecies-aes256-gcm"

  abbrev pub opened : String → Parsed
  opened s = record {
    transaction = encrypted_transaction s key;
    channel_key = some key;
    encryption_method = method;
  }

  pub parse-unlocked :
      (s : String) (keys : Dict String)
      → truthy s ≡ true
      → decrypt_channel_key provider keys "ecies-aes256-gcm" ≡ ok key
      → parse_persisted_transaction provider
          (encrypted_persisted s (some keys) method)
          unknown
          none
          none
        ≡ ok (opened s)
  unfolding parse_persisted_transaction channel_key_and_method
  parse-unlocked s keys whole unlocked = rw (parse_persisted_transaction, whole, unlocked) refl

  pub parse-first :
      (s : String) (keys : Dict String)
      → truthy s ≡ true
      → parse_persisted_transaction provider
          (encrypted_persisted s (some keys) method)
          unknown
          (some key)
          none
        ≡ ok (opened s)
  unfolding parse_persisted_transaction channel_key_and_method
  parse-first s keys whole = rw (parse_persisted_transaction, whole) refl

  pub parse-further :
      (s : String) (keys : Option (Dict String))
      → truthy s ≡ true
      → parse_persisted_transaction provider
          (encrypted_persisted s keys none)
          encrypted
          (some key)
          method
        ≡ ok (opened s)
  unfolding parse_persisted_transaction channel_key_and_method
  parse-further s keys whole = rw (parse_persisted_transaction, whole) refl

  pub get_error-Opens :
      (s d : String) → Opens env key s d → get_error env (encrypted_transaction s key) ≡ ""
  unfolding get_error
  get_error-Opens s d (whole, got, (json, parsed)) = rw (get_error, got, parsed) refl

  pub get_hash-Opens :
      (s d : String) {hash : String}
      → Opens env key s d
      → hash_of env d ≡ ok hash
      → get_hash env (encrypted_transaction s key) ≡ ok hash
  unfolding get_hash
  get_hash-Opens s d (whole, got, parsed) hash = rw (get_hash, got, ◌>>=◌, hash) refl

  abbrev pub knows_key : Channel
  knows_key = record {
    channel_type = encrypted;
    channel_key = some key;
    encryption_method = method;
  }

  pub learn_all-known :
      (ts : List TimestampedTransaction) → learn_all env provider knows_key ts ≡ knows_key
  unfolding learn_all learn
  learn_all-known [] = refl
  learn_all-known (t ∷ ts) = learn_all-known ts
