-- ===== src/DataAccess/Pending/Laws.antt =====
-- A transaction that data-write.ts persists, and that data-read.ts returns as pending until the
-- storage has indexed it.
use request_network.Base.{
  ◌≡◌, refl, ap, sym, ◌∙◌, Bool, true, false, ◌&&◌, String, none, some, List, [], ◌∷◌, ◌++◌, map,
  lookup, insert, lookup-insert, Result, ok, ◌>>=◌, >>=-eq-ok, ok_value, str_eq, str_eq_refl,
  eq_iff, arith, if◌then◌else◌,
}
use request_network.Types.{TransactionState}
use request_network.TransactionManager.{PersistedTransaction, TimestampedTransaction}
use request_network.DataAccess.Block.{Block, create_empty_block, push_transaction}
use request_network.DataAccess.Indexer.{Entry, IndexedTransaction}
use request_network.DataAccess.Pending.{
  PendingItem, PendingStore, add_pending, remove_pending, to_timestamped_transaction, get_pending,
  get_timestamped_by_channel_id, write_transaction,
}

abbrev pub is_indexed : List IndexedTransaction → Bool
is_indexed [] = false
is_indexed (x ∷ l) = true

-- What is returned of an item in the store, by whether the storage has indexed its entry.
abbrev pub still_pending : Bool → PersistedTransaction → Entry → List TimestampedTransaction
still_pending true t entry = []
still_pending false t entry =
    record { state = TransactionState.pending; transaction = t; timestamp = entry.meta.timestamp }
    ∷ []

-- The store after the reading of a channel.
abbrev pub store_after : Bool → PendingStore → String → PendingStore
store_after true store c = remove_pending store c
store_after false store c = store

lookup-remove_pending :
    (store : PendingStore) (c j : String)
    → lookup j (remove_pending store c) ≡ (if str_eq c j then none else lookup j store)
unfolding remove_pending lookup
lookup-remove_pending [] c j = ground arith
lookup-remove_pending ((i, item) ∷ store) c j =
    ground (arith, eq_iff i c, eq_iff i j, eq_iff c j, lookup-remove_pending store c j)

lookup-store_after :
    (indexed : Bool) (store : PendingStore) (c j : String)
    → lookup j (store_after indexed store c)
      ≡ (if indexed && str_eq c j then none else lookup j store)
lookup-store_after true store c j = lookup-remove_pending store c j
lookup-store_after false store c j = refl

-- What `persistTransaction` keeps of a transaction.
abbrev pub pending_item : PersistedTransaction → List String → Entry → PendingItem
pending_item t topics entry = record { topics = topics; transaction = t; storage_result = entry }

kept_after :
    (indexed : Bool) (store : PendingStore) (c j : String) (item : PendingItem)
    → lookup j (store_after indexed (insert c item store) c)
      ≡ (if str_eq c j then (if indexed then none else some item) else lookup j store)
kept_after indexed store c j item =
    ground
      (arith, lookup-store_after indexed (insert c item store) c j, lookup-insert c j item store)

pub written :
    {S : Type 0} (append : S → String → Result (S × Entry)) (stringify : Block → String) (s : S)
    (store : PendingStore) (t : PersistedTransaction) (c : String) (topics : List String) {s' : S}
    {next : PendingStore} {entry : Entry}
    → write_transaction append stringify s store t c topics ≡ ok (s', next, entry)
    → next ≡ insert c (pending_item t topics entry) store
unfolding write_transaction add_pending
written append stringify s store t c topics h =
    let (b, made, rest) = >>=-eq-ok (push_transaction create_empty_block t c topics) _ h in
    let (stored, kept, last) = >>=-eq-ok (append s (stringify b)) _ rest in
    let same = ok_value last in
    sym (ap (λ x. x.1) same)
    ∙ ap (λ e. insert c (pending_item t topics e) store) (ap (λ x. x.2) same)

module _ (by_location : String → Result (List IndexedTransaction))
    (by_channel : String → Result (List IndexedTransaction)) where
  get_pending-item :
      (store : PendingStore) (c : String) (item : PendingItem) (found : List IndexedTransaction)
      → lookup c store ≡ some item
      → by_location item.storage_result.id ≡ ok found
      → get_pending by_location by_channel store c
        ≡ ok (
          store_after (is_indexed found) store c,
          still_pending (is_indexed found) item.transaction item.storage_result,
        )
  unfolding get_pending
  get_pending-item store c item [] held got = rw (get_pending, held, got) refl
  get_pending-item store c item (x ∷ l) held got = rw (get_pending, held, got) refl

  pub get_timestamped-item :
      (store : PendingStore) (c : String) (item : PendingItem) {found l : List IndexedTransaction}
      → lookup c store ≡ some item
      → by_location item.storage_result.id ≡ ok found
      → by_channel c ≡ ok l
      → get_timestamped_by_channel_id by_location by_channel store c
        ≡ ok (
          store_after (is_indexed found) store c,
          map to_timestamped_transaction l
              ++ still_pending (is_indexed found) item.transaction item.storage_result,
        )
  unfolding get_timestamped_by_channel_id
  get_timestamped-item store c item {found} {l} held got read =
      rw (get_timestamped_by_channel_id, get_pending-item store c item found held got, ◌>>=◌, read)
        refl

  -- After a transaction is persisted, its channel is read as what the storage has indexed for it and,
  -- where the storage has not indexed the entry of the transaction, the transaction itself as pending
  -- at the time of its entry. The store then holds the transaction until its entry is indexed, and
  -- holds for the other channels what it held before the transaction was persisted.
  pub get_timestamped_by_channel_id-written :
      {S : Type 0} (append : S → String → Result (S × Entry)) (stringify : Block → String) (s : S)
      (store : PendingStore) (t : PersistedTransaction) (c : String) (topics : List String) {s' : S}
      {next : PendingStore} {entry : Entry} {found l : List IndexedTransaction}
      → write_transaction append stringify s store t c topics ≡ ok (s', next, entry)
      → by_location entry.id ≡ ok found
      → by_channel c ≡ ok l
      → (get_timestamped_by_channel_id by_location by_channel next c
          ≡ ok (
            store_after (is_indexed found) next c,
            map to_timestamped_transaction l ++ still_pending (is_indexed found) t entry,
          ))
        × ((j : String)
            → lookup j (store_after (is_indexed found) next c) ≡ (
                if str_eq c j
                then (if is_indexed found then none else some (pending_item t topics entry))
                else lookup j store))
  get_timestamped_by_channel_id-written append stringify s store t c topics {s'} {next} {entry}
        {found} h got read =
      let kept = written append stringify s store t c topics h in
      let held : lookup c next ≡ some (pending_item t topics entry) =
        rw (kept, lookup-insert c c (pending_item t topics entry) store, str_eq_refl c) refl in
      (
        get_timestamped-item next c (pending_item t topics entry) held got read,
        λ j. rw kept (kept_after (is_indexed found) store c j (pending_item t topics entry)),
      )
