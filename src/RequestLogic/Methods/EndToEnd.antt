-- ===== src/RequestLogic/Methods/EndToEnd.antt =====
-- The request logic of request-logic.ts on the transaction manager of
-- packages/transaction-manager/src/transaction-manager.ts: a request that is created and then read.
use request_network.Base.{
  ok_value, ℕ, ◌≡◌, refl, ap, sym, ◌∙◌, ◌⊎◌, true, String, Option, none, some, List, [], ◌∷◌, ◌++◌,
  ok, >>=-eq-ok, truthy, str_eq_refl,
}
use request_network.Types.{Identity, Action, ActionParameters, Request, TransactionState}
use request_network.TransactionManager.{TimestampedTransaction, DecryptionProvider, Environment}
use request_network.TransactionManager.Transactions.{hash_of}
use request_network.TransactionManager.Manager.{
  prepare, DataAccess, persist_transaction, get_transactions_by_channel_id,
}
use request_network.TransactionManager.Manager.View.{RefusesEmpty, hash_of-parses}
use request_network.TransactionManager.Channels.Clear.{IsClear, decrypt_and_clean_channel-clear}
use request_network.TransactionManager.Factory.{clear_persisted}
use request_network.TransactionManager.Manager.Sending.{prepare-new}
use request_network.RequestLogic.Action.{SignatureProvider}
use request_network.RequestLogic.Library.{Library}
use request_network.RequestLogic.Core.{
  AdvancedLogic, apply_action_to_request, get_request_id_from_action,
}
use request_network.RequestLogic.Replay.{compute_request_from_request_id}
use request_network.RequestLogic.Methods.{
  Clock, RequestLogic, JsonLibrary, interpret, persist_creation, create_clear_request, Creation,
  create_creation_action_request_id_and_topics, hash_topics, persist_action,
}
use request_network.RequestLogic.Actions.Create.{format_create}
use request_network.RequestLogic.Methods.Single.{manager_access, interpretation, computed_one}

module _ {N B S : Type 0} (env : Environment B) (decryption : Option DecryptionProvider)
    (access : DataAccess S) (lib : Library N) (json : JsonLibrary) (signature : SignatureProvider)
    (advanced : Option AdvancedLogic) where
  -- The request logic on the transaction manager on data access.
  abbrev pub connected : RequestLogic N S
  connected = record {
    lib = lib;
    json = json;
    manager = manager_access env decryption access;
    signature_provider = some signature;
    advanced_logic = advanced;
  }

  -- What is documented of JSON, for one action, and of the two hashes of it, that of the request
  -- logic and that of the transaction manager, which are of the same normalized object.
  pub record IsJson (a : Action) : Type 0 where
    pub refuses_empty : RefusesEmpty env
    pub parses : json.parse (json.stringify a) ≡ some a
    pub agrees : hash_of env (json.stringify a) ≡ get_request_id_from_action lib a

  -- What the manager sends for a creation, by the transaction that data access is given.
  persisted :
      (empty : RefusesEmpty env) (s : S) (d id : String) (topics : List String) {s' : S}
      → hash_of env d ≡ ok id
      → (connected.manager.persist s d id topics [] ≡ ok s')
      → (access.persist s (clear_persisted d) id (topics ++ id ∷ []) ≡ ok s')
        × (truthy d ≡ true)
        × ((j : String) × (env.sorted_json d ≡ ok j))
  unfolding persist_transaction
  persisted empty s d id topics {s'} hashed kept =
      let (whole, (j, parsed)) = hash_of-parses env empty d hashed in
      let sent =
        prepare-new env decryption access s
          (record { contents = d; channel_id = id; topics = topics }) hashed parsed
          (str_eq_refl id) in
      let (pair, both, last) =
        >>=-eq-ok (persist_transaction env decryption access s d id topics []) _ kept in
      let (prepared, prep, rest) = >>=-eq-ok (prepare env decryption access s d id []) _ both in
      let (next, stored, end) =
        >>=-eq-ok (access.persist s prepared.transaction id (topics ++ prepared.hash ∷ [])) _
          rest in
      let same = ok_value (sym prep ∙ sent) in
      let final : next ≡ s' = ap (λ p. p.0) (ok_value end) ∙ ok_value last in
      (
        ap (λ p. access.persist s p.transaction id (topics ++ p.hash ∷ [])) (sym same)
            ∙ stored
            ∙ ap ok final,
        whole,
        (j, parsed),
      )

  creation_made :
      (now : ℕ) (parameters : ActionParameters) (signer : Identity) (topics : List String)
      {made : Creation}
      → create_creation_action_request_id_and_topics connected now parameters signer topics
        ≡ ok made
      → (format_create now parameters signer signature ≡ ok made.action)
        × (get_request_id_from_action lib made.action ≡ ok made.request_id)
  unfolding create_creation_action_request_id_and_topics
  creation_made now parameters signer topics {made} h =
      let (a, formatted, h₂) = >>=-eq-ok (format_create now parameters signer signature) _ h in
      let (i, identified, h₃) = >>=-eq-ok (get_request_id_from_action lib a) _ h₂ in
      let (hashes, _, last) = >>=-eq-ok (hash_topics connected topics) _ h₃ in
      let same : a ≡ made.action = ap (λ c. c.action) (ok_value last) in
      let same_id : i ≡ made.request_id = ap (λ c. c.request_id) (ok_value last) in
      (formatted ∙ ap ok same, rw (← same) (identified ∙ ap ok same_id))

  -- The reading of a channel whose one transaction holds a creation.
  interpret_one :
      (s : S) (id : String) (a : Action) (documented : IsJson a) (now : ℕ)
      (t : TimestampedTransaction) {r : Request}
      → hash_of env (json.stringify a) ≡ ok id
      → (t.transaction ≡ clear_persisted (json.stringify a))
        × (truthy (json.stringify a) ≡ true)
        × ((j : String) × (env.sorted_json (json.stringify a) ≡ ok j))
      → access.get s id ≡ ok (t ∷ [])
      → (t.state ≡ TransactionState.confirmed) ⊎ (t.state ≡ TransactionState.pending)
      → t.timestamp ≡ now
      → apply_action_to_request lib advanced none a now ≡ ok r
      → interpret connected s id ≡ ok (interpretation lib advanced json.parse t.state r)
  unfolding interpret get_transactions_by_channel_id
  interpret_one s id a documented now t {r} hashed (holds, whole, parsed) got known time applied =
      let one : IsClear env decryption t = (json.stringify a, holds, whole, parsed) in
      rw (interpret, got, decrypt_and_clean_channel-clear env decryption id t [] one hashed tt)
        (ap ok (
          ap
            (λ (c : Option String).
              compute_request_from_request_id lib advanced json.parse
                (some (record { state = t.state; contents = c; timestamp = t.timestamp }) ∷ []))
            (ap (λ u. u.contents) holds)
          ∙ computed_one lib advanced json.parse t.state (json.stringify a) a t.timestamp known
              documented.parses (rw time applied)))

  -- What a creation in clear gives to data access, and its reading once data access returns it.
  pub create_clear_request-reads :
      (s : S) (now : Clock) (parameters : ActionParameters) (signer : Identity)
      (topics : List String) (a : Action) {s' : S} {id : String}
      → create_clear_request connected s now parameters signer topics ≡ ok (s', id)
      → format_create now.seconds parameters signer signature ≡ ok a
      → IsJson a
      → ((hashed_topics : List String) × (access.persist s
              (clear_persisted (json.stringify a))
              id
              hashed_topics
            ≡ ok s'))
        × (truthy (json.stringify a) ≡ true)
        × ((t : TimestampedTransaction) (r : Request)
            → t.transaction ≡ clear_persisted (json.stringify a)
            → access.get s' id ≡ ok (t ∷ [])
            → (t.state ≡ TransactionState.confirmed) ⊎ (t.state ≡ TransactionState.pending)
            → apply_action_to_request lib advanced none a t.timestamp ≡ ok r
            → interpret connected s' id ≡ ok (interpretation lib advanced json.parse t.state r))
  unfolding create_clear_request persist_creation persist_action
  create_clear_request-reads s now parameters signer topics a {s'} {id} h formatted documented =
      let (made, created, h₁) =
        >>=-eq-ok
          (create_creation_action_request_id_and_topics connected now.seconds parameters signer
            topics)
          _ h in
      let (formatted', identified) = creation_made now.seconds parameters signer topics created in
      let action : made.action ≡ a = ok_value (sym formatted' ∙ formatted) in
      let (_, applied, h₂) =
        >>=-eq-ok (apply_action_to_request lib advanced none made.action now.milliseconds) _ h₁ in
      let (s₁, kept, last) =
        >>=-eq-ok (persist_action connected s made.request_id made.action made.hashed_topics []) _
          h₂ in
      let same : s₁ ≡ s' = ap (λ p. p.0) (ok_value last) in
      let same_id : made.request_id ≡ id = ap (λ p. p.1) (ok_value last) in
      let hashed : hash_of env (json.stringify a) ≡ ok id =
        documented.agrees
        ∙ ap (get_request_id_from_action lib) (sym action)
        ∙ identified
        ∙ ap ok same_id in
      let (stored, whole, parsed) =
        persisted documented.refuses_empty s (json.stringify a) id made.hashed_topics hashed (
          ap (λ b. connected.manager.persist s (json.stringify b) id made.hashed_topics [])
            (sym action)
          ∙ ap
              (λ i.
                connected.manager.persist s (json.stringify made.action) i made.hashed_topics [])
              (sym same_id)
          ∙ kept
          ∙ ap ok same) in
      (
        (made.hashed_topics ++ id ∷ [], stored),
        whole,
        λ t r holds got known applies.
            interpret_one s' id a documented t.timestamp t hashed (holds, whole, parsed) got known
              refl applies,
      )
