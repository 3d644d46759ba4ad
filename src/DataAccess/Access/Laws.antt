-- ===== src/DataAccess/Access/Laws.antt =====
-- The data access of combined-data-access.ts against what the transaction manager asks of data access.
use mathlib.Core.List.{append-nil}
use request_network.Base.{
  ok_value, ◌≡◌, refl, ap, sym, ◌∙◌, inl, inr, true, false, Bool, String, some, List, [], ◌∷◌, ◌++◌,
  map, lookup, insert, lookup-insert, ok, ◌>>=◌, >>=-eq-ok, Option-cases, Bool-cases, str_eq,
  if◌then◌else◌, arith,
}
use request_network.TransactionManager.{TimestampedTransaction}
use request_network.TransactionManager.Factory.{clear_persisted}
use request_network.TransactionManager.Manager.View.{IsStore}
use request_network.DataAccess.Block.{Block, create_empty_block, push_transaction}
use request_network.DataAccess.Indexer.{Entry, IndexedTransaction}
use request_network.DataAccess.Pending.{
  PendingItem, PendingStore, write_transaction, get_pending, get_timestamped_by_channel_id,
  to_timestamped_transaction, add_pending,
}
use request_network.DataAccess.Pending.Laws.{get_timestamped-item, pending_item}
use request_network.DataAccess.Access.{Storage, combined_data_access}

-- A storage with an index that reads what is appended at once: of a block with one clear text, the
-- index returns the transaction at the end of its channel and at the place of its entry, and keeps
-- the other channels and what it has at other places.
pub record IndexesAtOnce {S : Type 0} (storage : Storage S) (block_text : Block → String)
    : Type 0 where
  pub appends :
      (s : S) (d c : String) (topics : List String) {b : Block}
      → push_transaction create_empty_block (clear_persisted d) c topics ≡ ok b
      → (s' : S) × ((entry : Entry) × (storage.append s (block_text b) ≡ ok (s', entry))
          × ((x : IndexedTransaction) × (x.transaction ≡ clear_persisted d)
              × ((l : List IndexedTransaction) × (storage.by_location s' entry.id ≡ ok (x ∷ l)))
              × ((j : String) (l : List IndexedTransaction)
                  → storage.by_channel s j ≡ ok l
                  → storage.by_channel s' j ≡ ok (if str_eq c j then l ++ x ∷ [] else l))
              × ((i : String) (y : IndexedTransaction) (l : List IndexedTransaction)
                  → storage.by_location s i ≡ ok (y ∷ l)
                  → (y' : IndexedTransaction) × ((l' : List IndexedTransaction)
                      × (storage.by_location s' i ≡ ok (y' ∷ l'))))))

module _ {S : Type 0} (storage : Storage S) (block_text : Block → String) where
  -- The states whose pending items are all indexed.
  abbrev pub Indexed : S × PendingStore → Type 0
  Indexed s =
      (j : String) (item : PendingItem)
      → lookup j s.1 ≡ some item
      → (x : IndexedTransaction) × ((l : List IndexedTransaction) × (storage.by_location s.0
              item.storage_result.id
            ≡ ok (x ∷ l)))

  -- A channel is read as the index has it.
  get-Indexed :
      (s : S) (store : PendingStore) (j : String) (l : List IndexedTransaction)
      → Indexed (s, store)
      → storage.by_channel s j ≡ ok l
      → (combined_data_access storage block_text).get (s, store) j
        ≡ ok (map to_timestamped_transaction l)
  unfolding combined_data_access get_timestamped_by_channel_id get_pending
  get-Indexed s store j l sound read = elim (Option-cases (lookup j store)) [
    | inl missing ↦
        rw (get_timestamped_by_channel_id, get_pending, missing, ◌>>=◌, read)
          (ap ok (append-nil (map to_timestamped_transaction l)))
    | inr (item, held) ↦
        let (x, (found, at)) = sound j item held in
        ap (λ r. r >>= λ y. ok y.1)
          (get_timestamped-item (storage.by_location s) (storage.by_channel s) store j item held at
            read)
        ∙ ap ok (append-nil (map to_timestamped_transaction l))
  ]

  -- What the reading of a channel has read of the index.
  get-read :
      (s : S) (store : PendingStore) (j : String) {ts : List TimestampedTransaction}
      → (combined_data_access storage block_text).get (s, store) j ≡ ok ts
      → (l : List IndexedTransaction) × (storage.by_channel s j ≡ ok l)
  unfolding combined_data_access get_timestamped_by_channel_id
  get-read s store j h =
      let (r, both, _) =
        >>=-eq-ok
          (get_timestamped_by_channel_id (storage.by_location s) (storage.by_channel s) store j) _
          h in
      let (pending, _, rest) =
        >>=-eq-ok (get_pending (storage.by_location s) (storage.by_channel s) store j) _ both in
      let (l, read, _) = >>=-eq-ok (storage.by_channel s j) _ rest in (l, read)

  map-more :
      (b : Bool) (l : List IndexedTransaction) (x : IndexedTransaction)
      → map to_timestamped_transaction (if b then l ++ x ∷ [] else l) ≡ (
          if b
          then map to_timestamped_transaction l ++ to_timestamped_transaction x ∷ []
          else map to_timestamped_transaction l)
  map-more false l x = refl
  map-more true [] x = refl
  map-more true (y ∷ l) x = ap (◌∷◌ (to_timestamped_transaction y)) (map-more true l x)

  clear_pushes :
      (d c : String) (topics : List String)
      → (b : Block) × (push_transaction create_empty_block (clear_persisted d) c topics ≡ ok b)
  unfolding push_transaction
  clear_pushes d c topics = (_, refl)

  -- Over a storage with an index that reads what is appended at once, the data access of the
  -- repository is what the transaction manager asks of data access.
  combined_data_access-IsStore :
      IndexesAtOnce storage block_text → IsStore (combined_data_access storage block_text) Indexed
  unfolding combined_data_access write_transaction add_pending to_timestamped_transaction
  combined_data_access-IsStore indexes = record {
    persists = λ s d c topics sound whole.
        let (b, pushed) = clear_pushes d c topics in
        let (s', (entry, appended, (x, holds, (found, there), channels, places))) =
          indexes.appends s.0 d c topics pushed in
        let item = pending_item (clear_persisted d) topics entry in
        let next = insert c item s.1 in
        let still : Indexed (s', next) = λ j other held. elim (Bool-cases (str_eq c j)) [
          | inl same ↦
              let equal : item ≡ other = ground (arith, same, lookup-insert c j item s.1, held) in
              (x, (found, ap (λ o. storage.by_location s' o.storage_result.id) (sym equal) ∙ there))
          | inr different ↦
              let earlier : lookup j s.1 ≡ some other =
                ground (arith, different, lookup-insert c j item s.1, held) in
              let (y, (l, at)) = sound j other earlier in places other.storage_result.id y l at
        ] in
        (
          (s', next),
          rw (pushed, appended) refl,
          still,
          (
            to_timestamped_transaction x,
            rw (holds, whole) refl,
            λ j ts got.
                let (l, read) = get-read s.0 s.1 j got in
                let before : map to_timestamped_transaction l ≡ ts =
                  ok_value (sym (get-Indexed s.0 s.1 j l sound read) ∙ got) in
                get-Indexed s' next j (if str_eq c j then l ++ x ∷ [] else l) still
                  (channels j l read)
                ∙ ap ok (map-more (str_eq c j) l x)
                ∙ ap (λ y. ok (if str_eq c j then y ++ to_timestamped_transaction x ∷ [] else y))
                    before,
          ),
        );
  }
