-- ===== src/RequestLogic/Methods/Validation.antt =====
-- What a validated update is checked for, in request-logic.ts.
use request_network.Base.{
  ℕ, ◌≡◌, inl, inr, ◌⊎◌, true, String, Option, none, some, List, [], ok, err, >>=-eq-ok,
  Result-cases, Option-cases, arith,
}
use request_network.Types.{Identity, Action, ActionParameters, Request}
use request_network.Encryption.{EncryptionParameters}
use request_network.RequestLogic.Core.{apply_action_to_request, get_request_id_from_action}
use request_network.RequestLogic.Action.{SignatureProvider}
use request_network.RequestLogic.Replay.{Computed}
use request_network.RequestLogic.Replay.{
  compute_request_from_request_id, compute_request_from_transactions, replay,
  remove_old_pending_transactions, remove_loop, reverse, not_null, some_all, sort,
  parse_transactions, unique_from,
}
use request_network.Base.{none, [], false, refl}
use request_network.RequestLogic.Methods.{
  given_provider, RequestLogic, Format, given_provider, interpret, validate_states, validate_action,
  persist_action, persist_update,
}

module _ {N S : Type 0} (logic : RequestLogic N S) where
  -- The action is applied by the core.
  abbrev pub Applies : Option Request → Action → ℕ → Type 0
  Applies state action now =
      (r : Request) × (apply_action_to_request logic.lib logic.advanced_logic state action now
        ≡ ok r)

  pub given_provider-ok :
      (provider : SignatureProvider)
      → given_provider logic ≡ ok provider
      → logic.signature_provider ≡ some provider
  unfolding given_provider
  given_provider-ok provider h = elim (Option-cases logic.signature_provider) [
    | inl missing ↦ ground arith
    | inr (found, same) ↦ ground arith
  ]

  -- What a validation establishes of the two states of a request.
  abbrev pub IsValidated : Computed → Action → ℕ → Type 0
  IsValidated computed action now =
      Applies computed.confirmed action now
      ⊎ ((computed.pending ≡ none) ⊎ Applies computed.pending action now)

  refused_both :
      (confirmed pending : Option Request) (action : Action) (now : ℕ) {p : Request} {e e' : String}
      {done : Unit {0}}
      → apply_action_to_request logic.lib logic.advanced_logic confirmed action now ≡ err e
      → pending ≡ some p
      → apply_action_to_request logic.lib logic.advanced_logic pending action now ≡ err e'
      → validate_states logic confirmed pending action now ≡ ok done
      → ⊥
  unfolding validate_states
  refused_both confirmed pending action now failed same refused h = ground arith

  validate_states-IsValidated :
      (computed : Computed) (action : Action) (now : ℕ) {done : Unit {0}}
      → validate_states logic computed.confirmed computed.pending action now ≡ ok done
      → IsValidated computed action now
  unfolding validate_states
  validate_states-IsValidated computed action now h =
      elim (Result-cases
        (apply_action_to_request logic.lib logic.advanced_logic computed.confirmed action now)) [
          | inl applied ↦ inl applied
          | inr (e, failed) ↦ elim (Option-cases computed.pending) [
            | inl missing ↦ inr (inl missing)
            | inr (p, same) ↦
                elim (Result-cases (
                  apply_action_to_request logic.lib logic.advanced_logic computed.pending action
                    now)) [
                      | inl applied ↦ inr (inr applied)
                      | inr (e', refused) ↦ absurd (
                          refused_both computed.confirmed computed.pending action now failed same
                            refused h)
                    ]
          ]
        ]

  missing_pending :
      (confirmed pending : Option Request) (action : Action) (now : ℕ)
      → pending ≡ none
      → validate_states logic confirmed pending action now ≡ ok tt
  unfolding validate_states
  missing_pending confirmed pending action now h = ground arith

  validate_action-missing :
      (s : S) (request_id : String) (action : Action) (now : ℕ)
      → logic.manager.get s request_id ≡ ok []
      → validate_action logic s request_id action now ≡ ok tt
  unfolding validate_action interpret compute_request_from_request_id
      compute_request_from_transactions replay remove_old_pending_transactions remove_loop reverse
      not_null some_all sort parse_transactions unique_from
  validate_action-missing s request_id action now read =
      rw (validate_action, interpret, read) (missing_pending none none action now refl)

  -- On a request that has no transactions an update is persisted with validation as it is without: the
  -- validation refuses nothing, although there is no request to apply the update to.
  pub persist_update-missing :
      (format : Format) (s : S) (now : ℕ) (parameters : ActionParameters) (signer : Identity)
      (encryption_params : List EncryptionParameters) (provider : SignatureProvider)
      (action : Action) (request_id : String)
      → logic.signature_provider ≡ some provider
      → format parameters signer provider ≡ ok action
      → get_request_id_from_action logic.lib action ≡ ok request_id
      → logic.manager.get s request_id ≡ ok []
      → persist_update logic format s now parameters signer true encryption_params
        ≡ persist_update logic format s now parameters signer false encryption_params
  unfolding persist_update given_provider
  persist_update-missing format s now parameters signer encryption_params provider action request_id
        given_provider formatted identified read =
      rw
        (
          persist_update,
          given_provider,
          formatted,
          identified,
          validate_action-missing s request_id action now read,
        )
        refl

  -- Where an update with validation is persisted, a signature provider is given and has signed the
  -- action, the request is read, and the action applies to its confirmed state, or to its pending
  -- state, or the request has no pending state.
  pub persist_update-IsValidated :
      (format : Format) (s : S) (now : ℕ) (parameters : ActionParameters) (signer : Identity)
      (encryption_params : List EncryptionParameters) {s' : S}
      → persist_update logic format s now parameters signer true encryption_params ≡ ok s'
      → (provider : SignatureProvider) × (logic.signature_provider ≡ some provider)
        × ((action : Action) × (format parameters signer provider ≡ ok action)
            × ((request_id : String) × (get_request_id_from_action logic.lib action ≡ ok request_id)
                × ((computed : Computed) × (interpret logic s request_id ≡ ok computed)
                    × IsValidated computed action now
                    × (persist_action logic s request_id action [] encryption_params ≡ ok s'))))
  unfolding persist_update validate_action given_provider
  persist_update-IsValidated format s now parameters signer encryption_params h =
      let (provider, found, h₁) = >>=-eq-ok (given_provider logic) _ h in
      let (action, formatted, h₂) = >>=-eq-ok (format parameters signer provider) _ h₁ in
      let (request_id, identified, h₃) =
        >>=-eq-ok (get_request_id_from_action logic.lib action) _ h₂ in
      let (_, validated, persisted) =
        >>=-eq-ok (validate_action logic s request_id action now) _ h₃ in
      let (computed, read, checked) = >>=-eq-ok (interpret logic s request_id) _ validated in
      (
        provider,
        given_provider-ok provider found,
        (
          action,
          formatted,
          (
            request_id,
            identified,
            (computed, read, validate_states-IsValidated computed action now checked, persisted),
          ),
        ),
      )
