-- ===== src/TransactionManager/Channels/Clear.antt =====
-- A channel of clear transactions, as channel-parser.ts reads it.
use request_network.Base.{
  ◌≡◌, refl, ap, ◌∙◌, true, String, Option, none, some, List, [], ◌∷◌, map, All, ok, arith, truthy,
  str_eq_refl,
}
use request_network.TransactionManager.{
  TimestampedTransaction, unknown, clear, DecryptionProvider, Environment,
}
use request_network.TransactionManager.Transactions.{
  clear_transaction, hash_of, get_data, get_hash, get_error,
}
use request_network.TransactionManager.Parser.{Parsed, parse_persisted_transaction}
use request_network.TransactionManager.Channels.{
  valid, settle, finish, clean, clean_all, valid_of, ignored_of, learn, learn_all,
  get_channel_type_and_channel_key, decrypt_and_clean_channel,
}
use request_network.TransactionManager.Channels.Cleaning.{decrypt_and_clean_channel-outcomes}
use request_network.TransactionManager.Factory.{clear_persisted}

module _ {B : Type 0} (env : Environment B) (provider : Option DecryptionProvider) where
  -- A transaction that is clear, and whose data are JSON.
  abbrev pub IsClear : TimestampedTransaction → Type 0
  IsClear t =
      (contents : String) × (t.transaction ≡ clear_persisted contents)
      × (truthy contents ≡ true)
      × ((json : String) × (env.sorted_json contents ≡ ok json))

  abbrev parsed_clear : String → Parsed
  parsed_clear contents = record {
    transaction = clear_transaction contents;
    channel_key = none;
    encryption_method = none;
  }

  parse-unknown :
      (contents : String)
      → truthy contents ≡ true
      → parse_persisted_transaction provider (clear_persisted contents) unknown none none
        ≡ ok (parsed_clear contents)
  unfolding parse_persisted_transaction
  parse-unknown contents h = ground arith

  parse-clear :
      (contents : String)
      → truthy contents ≡ true
      → parse_persisted_transaction provider (clear_persisted contents) clear none none
        ≡ ok (parsed_clear contents)
  unfolding parse_persisted_transaction
  parse-clear contents h = ground arith

  get_error-clear :
      (contents : String) {json : String}
      → env.sorted_json contents ≡ ok json
      → get_error env (clear_transaction contents) ≡ ""
  unfolding get_error
  get_error-clear contents h = ground arith

  learn-first :
      (t : TimestampedTransaction)
      → IsClear t
      → learn env provider
          (record { channel_type = unknown; channel_key = none; encryption_method = none })
          t
        ≡ record { channel_type = clear; channel_key = none; encryption_method = none }
  unfolding learn
  learn-first t (contents, same, whole, (json, parsed)) =
      rw (same, parse-unknown contents whole, get_error-clear contents parsed) refl

  learn_all-clear :
      (ts : List TimestampedTransaction)
      → learn_all env provider
          (record { channel_type = clear; channel_key = none; encryption_method = none })
          ts
        ≡ record { channel_type = clear; channel_key = none; encryption_method = none }
  unfolding learn_all learn
  learn_all-clear [] = refl
  learn_all-clear (t ∷ ts) = learn_all-clear ts

  clean-clear :
      (channel_id : String) (t : TimestampedTransaction)
      → IsClear t
      → clean env provider channel_id none (clear, none) t ≡ ok (valid t, (clear, none))
  unfolding clean settle finish get_data
  clean-clear channel_id t (contents, same, whole, (json, parsed)) =
      rw (clean, same, parse-clear contents whole, get_error-clear contents parsed) refl

  clean-first :
      (channel_id : String) (t : TimestampedTransaction) (clear_one : IsClear t)
      → hash_of env clear_one.0 ≡ ok channel_id
      → clean env provider channel_id none (unknown, none) t ≡ ok (valid t, (clear, none))
  unfolding clean settle finish get_data get_hash
  clean-first channel_id t (contents, same, whole, (json, parsed)) hash =
      rw
        (
          clean,
          same,
          parse-unknown contents whole,
          get_error-clear contents parsed,
          hash,
          str_eq_refl channel_id,
        )
        refl

  clean_all-clear :
      (channel_id : String) (ts : List TimestampedTransaction)
      → All IsClear ts
      → clean_all env provider channel_id none (clear, none) ts ≡ ok (map valid ts, none)
  unfolding clean_all
  clean_all-clear channel_id [] h = refl
  clean_all-clear channel_id (t ∷ ts) (one, more) =
      rw (clean-clear channel_id t one, clean_all-clear channel_id ts more) refl

  clean_all-first :
      (channel_id : String) (t : TimestampedTransaction) (ts : List TimestampedTransaction)
      (clear_one : IsClear t)
      → hash_of env clear_one.0 ≡ ok channel_id
      → All IsClear ts
      → clean_all env provider channel_id none (unknown, none) (t ∷ ts)
        ≡ ok (map valid (t ∷ ts), none)
  unfolding clean_all
  clean_all-first channel_id t ts one hash more =
      rw (clean-first channel_id t one hash, clean_all-clear channel_id ts more) refl

  valid_of-valid : (ts : List TimestampedTransaction) → map valid_of (map valid ts) ≡ map some ts
  valid_of-valid [] = refl
  valid_of-valid (t ∷ ts) = ap (λ l. some t ∷ l) (valid_of-valid ts)

  ignored_of-valid :
      (ts : List TimestampedTransaction) → map ignored_of (map valid ts) ≡ map (λ t. none) ts
  ignored_of-valid [] = refl
  ignored_of-valid (t ∷ ts) = ap (λ l. none ∷ l) (ignored_of-valid ts)

  -- A channel is known to be clear as soon as its first transaction is.
  pub get_channel_type_and_channel_key-clear :
      (t : TimestampedTransaction) (ts : List TimestampedTransaction)
      → IsClear t
      → get_channel_type_and_channel_key env provider (t ∷ ts)
        ≡ record { channel_type = clear; channel_key = none; encryption_method = none }
  unfolding get_channel_type_and_channel_key learn_all
  get_channel_type_and_channel_key-clear t ts one = rw (learn-first t one) (learn_all-clear ts)

  -- A channel of clear transactions whose first has the channel identifier as its hash is read
  -- as it is: every transaction is kept unchanged, in order, and none is ignored.
  pub decrypt_and_clean_channel-clear :
      (channel_id : String) (t : TimestampedTransaction) (ts : List TimestampedTransaction)
      (clear_one : IsClear t)
      → hash_of env clear_one.0 ≡ ok channel_id
      → All IsClear ts
      → decrypt_and_clean_channel env provider channel_id (t ∷ ts)
        ≡ ok (record {
          encryption_method = none;
          transactions = map some (t ∷ ts);
          ignored_transactions = map (λ u. none) (t ∷ ts);
        })
  decrypt_and_clean_channel-clear channel_id t ts one hash more =
      decrypt_and_clean_channel-outcomes env provider channel_id (t ∷ ts)
        (ap (λ c. c.channel_key) (get_channel_type_and_channel_key-clear t ts one))
        (clean_all-first channel_id t ts one hash more)
      ∙ rw (valid_of-valid ts, ignored_of-valid ts) refl
