-- ===== src/TransactionManager/Manager/Reading.antt =====
-- What `getTransactionsByChannelId` of transaction-manager.ts returns after a sequence of calls of
-- `persistTransaction`.
use request_network.Base.{◌≡◌, refl, ap, String, Option, none, some, List, [], ◌∷◌, map, All, ok}
use request_network.TransactionManager.{
  TimestampedTransaction, IgnoredTransaction, DecryptionProvider, Environment,
}
use request_network.TransactionManager.Channels.{Cleaned, decrypt_and_clean_channel, clean_all}
use request_network.TransactionManager.Channels.Clear.{IsClear, decrypt_and_clean_channel-clear}
use request_network.TransactionManager.Factory.{}
use request_network.TransactionManager.Manager.{DataAccess, get_transactions_by_channel_id}
use request_network.TransactionManager.Manager.View.{
  IsStore, Call, persist_view_all, AllHold, HoldsChannel, RefusesEmpty,
}
use request_network.TransactionManager.Manager.Refinement.{persist_all, persist_all-Represents}

-- The data of the transactions that are returned.
unfoldable pub data_of : List (Option TimestampedTransaction) → List (Option String)
data_of [] = []
data_of (none ∷ ts) = none ∷ data_of ts
data_of (some t ∷ ts) = t.transaction.contents ∷ data_of ts

module _ {B S : Type 0} (env : Environment B) (provider : Option DecryptionProvider)
    (access : DataAccess S) where
  data_of-Hold :
      (ts : List TimestampedTransaction) (ds : List String)
      → AllHold env ts ds
      → data_of (map some ts) ≡ map some ds
  unfolding data_of
  data_of-Hold [] [] h = refl
  data_of-Hold (t ∷ ts) (d ∷ ds) (one, more) = rw (one.0, data_of-Hold ts ds more) refl
  data_of-Hold [] (d ∷ ds) h = absurd h
  data_of-Hold (t ∷ ts) [] h = absurd h

  Hold-IsClear :
      (ts : List TimestampedTransaction) (ds : List String)
      → AllHold env ts ds
      → All (IsClear env provider) ts
  Hold-IsClear [] [] h = tt
  Hold-IsClear (t ∷ ts) (d ∷ ds) (one, more) = ((d, one.0, one.1, one.2), Hold-IsClear ts ds more)
  Hold-IsClear [] (d ∷ ds) h = absurd h
  Hold-IsClear (t ∷ ts) [] h = absurd h

  abbrev nothing_ignored : {A : Type 0} → List A → List (Option IgnoredTransaction)
  nothing_ignored ts = map (λ t. none) ts

  none-some :
      (ts : List TimestampedTransaction) → nothing_ignored ts ≡ nothing_ignored (map some ts)
  none-some [] = refl
  none-some (t ∷ ts) = ap (λ l. none ∷ l) (none-some ts)

  read_channel :
      (j : String) (l : List TimestampedTransaction) (ds : List String)
      → HoldsChannel env j l ds
      → (c : Cleaned) × (decrypt_and_clean_channel env provider j l ≡ ok c)
        × (data_of c.transactions ≡ map some ds)
        × (c.ignored_transactions ≡ map (λ t. none) c.transactions)
  unfolding decrypt_and_clean_channel clean_all data_of
  read_channel j [] [] h = (_, refl, refl, refl)
  read_channel j (t ∷ ts) (d ∷ ds) (hash, one, more) = (
    _,
    decrypt_and_clean_channel-clear env provider j t ts (d, one.0, one.1, one.2) hash
        (Hold-IsClear ts ds more),
    data_of-Hold (t ∷ ts) (d ∷ ds) (one, more),
    none-some (t ∷ ts),
  )
  read_channel j [] (d ∷ ds) h = absurd h
  read_channel j (t ∷ ts) [] h = absurd h

  -- From a valid state of data access whose channels are empty, after any calls of
  -- `persistTransaction` without encryption, some of which may fail, a channel is read as the data
  -- that the specification holds for it, in order, with no transaction ignored, if data access keeps
  -- the clear data that is persisted in its valid states and the empty text is no JSON.
  pub persist_all-refines :
      (valid : S → Type 0)
      → IsStore access valid
      → RefusesEmpty env
      → (s : S) (calls : List Call) (j : String) → valid s
      → ((k : String) → access.get s k ≡ ok [])
      → (c : Cleaned) × (get_transactions_by_channel_id env provider access
            (persist_all env provider access s calls)
            j
          ≡ ok c)
        × (data_of c.transactions ≡ map some (persist_view_all env (λ k. []) calls j))
        × (c.ignored_transactions ≡ map (λ t. none) c.transactions)
  unfolding get_transactions_by_channel_id
  persist_all-refines valid store empty s calls j sound start =
      let (l, got, held) =
        (persist_all-Represents env provider access valid store empty s (λ k. []) calls
            (sound, λ k. ([], start k, tt))).1
          j in
      let (c, cleaned, same, none_ignored) =
        read_channel j l (persist_view_all env (λ k. []) calls j) held in
      (c, rw got cleaned, same, none_ignored)
