-- ===== src/TransactionManager/Channels/Opening.antt =====
-- The reading of an encrypted channel by a party, in channel-parser.ts.
use request_network.Base.{◌≡◌, String, Option, none, some, List, [], ◌∷◌, Dict, ok}
use request_network.Encryption.{EncryptionParameters}
use request_network.Encryption.Symmetric.{generate32_buffer_key}
use request_network.TransactionManager.{TimestampedTransaction, DecryptionProvider, Environment}
use request_network.TransactionManager.Parser.{decrypt_channel_key}
use request_network.TransactionManager.Channels.{Outcome, keep}
use request_network.TransactionManager.Channels.Encrypted.{Opens, gcm_params}
use request_network.TransactionManager.Factory.{encrypted_persisted, create_encrypted_transaction}
use request_network.TransactionManager.Channels.Unlocked.{method}

module _ {B : Type 0} (env : Environment B) (provider : Option DecryptionProvider)
    (key : EncryptionParameters) where
  -- A first transaction, whose keys the provider opens, and further ones.
  abbrev pub IsFirst : TimestampedTransaction → String → Type 0
  IsFirst t d =
      (s : String) × ((keys : Dict String) × (t.transaction
          ≡ encrypted_persisted s (some keys) (method env provider key))
        × (decrypt_channel_key provider keys "ecies-aes256-gcm" ≡ ok key)
        × Opens env key s d)

  abbrev pub AreFurther : List TimestampedTransaction → List String → Type 0
  AreFurther [] [] = Unit
  AreFurther (t ∷ ts) (d ∷ ds) =
      ((s : String) × ((keys : Option (Dict String)) × (t.transaction
            ≡ encrypted_persisted s keys none)
          × Opens env key s d))
      × AreFurther ts ds
  AreFurther _ _ = ⊥

  abbrev pub AreCreated : List TimestampedTransaction → List String → Type 0
  AreCreated [] [] = Unit
  AreCreated (t ∷ ts) (d ∷ ds) =
      ((params : List EncryptionParameters) × (create_encrypted_transaction env d key params
          ≡ ok t.transaction))
      × AreCreated ts ds
  AreCreated _ _ = ⊥

  abbrev pub keep_all : List TimestampedTransaction → List String → List Outcome
  keep_all (t ∷ ts) (d ∷ ds) = keep d t ∷ keep_all ts ds
  keep_all _ _ = []

module _ {B : Type 0} (env : Environment B) (provider : DecryptionProvider)
    (opening : EncryptionParameters) where
  -- The key of a new channel, as the parameters of its encryption.
  abbrev pub channel_key : EncryptionParameters
  channel_key = gcm_params env (generate32_buffer_key env.encryption)
