-- ===== src/RequestLogic/Methods/Stored.antt =====
-- The request logic of request-logic.ts on the transaction manager, and that on the data access of
-- packages/data-access/src/: a request that is created in clear, written in a block and then read.
use request_network.Base.{
  ok_value, ℕ, ◌≡◌, refl, ap, ◌∙◌, ◌⊎◌, true, String, Option, none, some, List, [], ◌∷◌, ◌>>=◌, ok,
  >>=-eq-ok, arith, truthy, str_eq_refl,
}
use request_network.Types.{Identity, Action, ActionParameters, Request, TransactionState}
use request_network.TransactionManager.{PersistedTransaction, DecryptionProvider, Environment}
use request_network.TransactionManager.Manager.{}
use request_network.TransactionManager.Factory.{clear_persisted}
use request_network.RequestLogic.Action.{SignatureProvider}
use request_network.RequestLogic.Library.{Library}
use request_network.RequestLogic.Core.{AdvancedLogic, apply_action_to_request}
use request_network.RequestLogic.Methods.{
  Clock, RequestLogic, JsonLibrary, interpret, create_clear_request,
}
use request_network.RequestLogic.Actions.Create.{format_create}
use request_network.RequestLogic.Methods.Single.{interpretation}
use request_network.Base.{lookup, lookup-insert, inl, inr}
use request_network.DataAccess.Block.{Block}
use request_network.DataAccess.Indexer.{IndexedTransaction}
use request_network.DataAccess.Access.{Storage, combined_data_access}
use request_network.DataAccess.Pending.{
  PendingItem, PendingStore, write_transaction, to_timestamped_transaction,
}
use request_network.DataAccess.Pending.Laws.{
  is_indexed, written, pending_item, get_timestamped-item,
}
use request_network.RequestLogic.Methods.EndToEnd.{connected, IsJson, create_clear_request-reads}

module _ {N B S : Type 0} (env : Environment B) (decryption : Option DecryptionProvider)
    (storage : Storage S) (block_text : Block → String) (lib : Library N) (json : JsonLibrary)
    (signature : SignatureProvider) (advanced : Option AdvancedLogic) where
  -- The request logic on all layers below it.
  abbrev pub client : RequestLogic N (S × PendingStore)
  client =
      connected env decryption (combined_data_access storage block_text) lib json signature advanced

  -- What the index of the storage says of a transaction whose item is in the pending store, with the
  -- state and the time that it has then: nothing yet, or the transaction alone in its channel.
  abbrev pub Indexes :
      PersistedTransaction
      → PendingItem
      → List IndexedTransaction
      → List IndexedTransaction
      → TransactionState
      → ℕ
      → Type 0
  Indexes p item found l state time =
      ((found ≡ [])
        × (l ≡ [])
        × (state ≡ TransactionState.pending)
        × (time ≡ item.storage_result.meta.timestamp))
      ⊎ ((x : IndexedTransaction) × (is_indexed found ≡ true)
          × (l ≡ x ∷ [])
          × (x.transaction ≡ p)
          × (state ≡ TransactionState.confirmed)
          × (time ≡ x.block_timestamp))

  stored_item :
      (s : S) (store : PendingStore) (p : PersistedTransaction) (id : String) (topics : List String)
      {s' : S} {next : PendingStore} {item : PendingItem}
      → (combined_data_access storage block_text).persist (s, store) p id topics ≡ ok (s', next)
      → lookup id next ≡ some item
      → item.transaction ≡ p
  unfolding combined_data_access
  stored_item s store p id topics {s'} {next} {item} h held =
      let (w, wrote, last) =
        >>=-eq-ok (write_transaction storage.append block_text s store p id topics) _ h in
      let kept = written storage.append block_text s store p id topics wrote in
      let same : w.1 ≡ next = ap (λ x. x.1) (ok_value last) in
      let there : lookup id next ≡ some (pending_item p topics w.2) =
        rw (← same, kept, lookup-insert id id (pending_item p topics w.2) store, str_eq_refl id)
          refl in
      ground (arith, there, held)

  read_item :
      (s' : S) (next : PendingStore) (id d : String) (item : PendingItem)
      {found l : List IndexedTransaction} {state : TransactionState} {time : ℕ}
      → truthy d ≡ true
      → item.transaction ≡ clear_persisted d
      → lookup id next ≡ some item
      → storage.by_location s' item.storage_result.id ≡ ok found
      → storage.by_channel s' id ≡ ok l
      → Indexes (clear_persisted d) item found l state time
      → (combined_data_access storage block_text).get (s', next) id
        ≡ ok (record { state = state; transaction = clear_persisted d; timestamp = time } ∷ [])
  unfolding combined_data_access to_timestamped_transaction
  read_item s' next id d item {found} {l} {state} {time} whole same held got read told =
      ap (λ r. r >>= λ x. ok x.1)
        (get_timestamped-item (storage.by_location s') (storage.by_channel s') next id item held got
          read)
      ∙ elim told [
        | inl (none_found, none_there, is_state, is_time) ↦
            rw (none_found, none_there, is_state, is_time, same) refl
        | inr (x, indexed, there, holds, is_state, is_time) ↦
            rw (indexed, there, is_state, is_time, holds, whole) refl
      ]

  -- A request that is created in clear is read back through all layers: where the index has not seen
  -- the entry of its block yet, as pending at the time of that entry, and where it returns the
  -- transaction as the one of its channel, as confirmed at the time of its block. It is the request
  -- that its action makes at that time, which must be one at which the action applies, and nothing is
  -- ignored. JSON is read back as it was written, and the hash of the action is the same in the two
  -- layers that take it.
  pub interpret-create_clear_request :
      (s : S) (store : PendingStore) (now : Clock) (parameters : ActionParameters)
      (signer : Identity) (topics : List String) (a : Action) (item : PendingItem) {s' : S}
      {next : PendingStore} {id : String} {found l : List IndexedTransaction}
      {state : TransactionState} {time : ℕ} {r : Request}
      → create_clear_request client (s, store) now parameters signer topics ≡ ok ((s', next), id)
      → format_create now.seconds parameters signer signature ≡ ok a
      → IsJson env decryption
          (combined_data_access storage block_text)
          lib
          json
          signature
          advanced
          a
      → lookup id next ≡ some item
      → storage.by_location s' item.storage_result.id ≡ ok found
      → storage.by_channel s' id ≡ ok l
      → Indexes (clear_persisted (json.stringify a)) item found l state time
      → apply_action_to_request lib advanced none a time ≡ ok r
      → interpret client (s', next) id ≡ ok (interpretation lib advanced json.parse state r)
  interpret-create_clear_request s store now parameters signer topics a item {s'} {next} {id}
        {found} {l} {state} {time} {r} h formatted documented held got read told applies =
      let ((hashed, stored), whole, reads) =
        create_clear_request-reads env decryption (combined_data_access storage block_text) lib json
          signature advanced (s, store) now parameters signer topics a h formatted documented in
      let d = json.stringify a in
      let same = stored_item s store (clear_persisted d) id hashed stored held in
      reads (record { state = state; transaction = clear_persisted d; timestamp = time }) r refl
        (read_item s' next id d item whole same held got read told)
        (elim told [
          | inl (_, _, is_state, _) ↦ inr is_state
          | inr (_, _, _, _, is_state, _) ↦ inl is_state
        ])
        applies
