-- ===== src/RequestLogic/Inversion.antt =====
-- What an action of packages/request-logic/src/actions/ has passed when it returns, and its
-- result.
use request_network.Base.{
  ℕ, ◌≡◌, ◌⊎◌, inl, inr, ◌≢◌, some, ok, arith, Result-cases, true, Option-cases,
}
use request_network.Types.{Identity, Amount, ActionName, RequestState, Role, Action, Request}
use request_network.Amount.{add_amount, reduce_amount, is_valid_amount}
use request_network.RequestLogic.Library.{Library}
use request_network.RequestLogic.Role.{get_role_in_request}
use request_network.RequestLogic.Action.{get_signer_identity_from_action}
use request_network.RequestLogic.Actions.Common.{
  generate_event, generate_delta_event, record_action,
}
use request_network.RequestLogic.Actions.Accept.{apply_accept}
use request_network.RequestLogic.Actions.Cancel.{apply_cancel}
use request_network.RequestLogic.Actions.IncreaseExpectedAmount.{
  increased_request, apply_increase_expected_amount,
}
use request_network.RequestLogic.Actions.ReduceExpectedAmount.{
  reduced_request, apply_reduce_expected_amount,
}
use request_network.RequestLogic.Actions.AddStakeholders.{apply_add_stakeholders}
use request_network.RequestLogic.Actions.AddExtensionsData.{apply_add_extensions_data}

-- The signer of an action, and the role that it has on the request.
pub record Signed {N : Type 0} (lib : Library N) (action : Action) (request : Request) (role : Role)
    (signer : Identity) : Type 0 where
  pub recovered : get_signer_identity_from_action lib action ≡ ok signer
  pub has_role : get_role_in_request signer request ≡ role

-- The step behind the guards of an increase or a reduction.
module _ {N : Type 0} (lib : Library N) (role : Role) (state : RequestState) (amount delta : Amount)
    (copied : Request) {request' : Request} where
  increased_request-ok :
      increased_request lib role state amount delta copied ≡ ok request'
      → (new_amount : Amount) × (role ≡ Role.payer)
        × (state ≢ RequestState.canceled)
        × (add_amount lib.big amount delta ≡ ok new_amount)
        × (request' ≡ record copied { expected_amount = new_amount })
  unfolding increased_request
  increased_request-ok h = elim (Result-cases (add_amount lib.big amount delta)) [
    | inl (n, e) ↦ (n, ground arith, ground arith, e, ground arith)
    | inr (m, e) ↦ ground arith
  ]

  reduced_request-ok :
      reduced_request lib role state amount delta copied ≡ ok request'
      → (new_amount : Amount) × (role ≡ Role.payee)
        × (state ≢ RequestState.canceled)
        × (reduce_amount lib.big amount delta ≡ ok new_amount)
        × (request' ≡ record copied { expected_amount = new_amount })
  unfolding reduced_request
  reduced_request-ok h = elim (Result-cases (reduce_amount lib.big amount delta)) [
    | inl (n, e) ↦ (n, ground arith, ground arith, e, ground arith)
    | inr (m, e) ↦ ground arith
  ]

module _ {N : Type 0} (lib : Library N) (action : Action) (timestamp : ℕ) (request : Request)
    {request' : Request} where
  pub apply_accept-ok :
      apply_accept lib action timestamp request ≡ ok request'
      → (signer : Identity) × Signed lib action request Role.payer signer
        × (request.state ≡ RequestState.created)
        × (request'
            ≡ record_action action
                (generate_event ActionName.accept action timestamp signer)
                (record request { state = RequestState.accepted }))
  unfolding apply_accept
  apply_accept-ok h = elim (Result-cases (get_signer_identity_from_action lib action)) [
    | inl (s, e) ↦
        (s, record { recovered = e; has_role = ground arith }, ground arith, ground arith)
    | inr (m, e) ↦ ground arith
  ]

  -- A payee cancels what is not canceled; a payer cancels only what is not yet accepted.
  pub apply_cancel-ok :
      apply_cancel lib action timestamp request ≡ ok request'
      → (signer : Identity) × (Signed lib action request Role.payee signer
            × (request.state ≢ RequestState.canceled)
          ⊎ Signed lib action request Role.payer signer × (request.state ≡ RequestState.created))
        × (request' ≡ (
            let copied : Request =
              record_action action
                (generate_event ActionName.cancel action timestamp signer)
                request in
            record copied { state = RequestState.canceled }))
  unfolding apply_cancel
  apply_cancel-ok h = elim (Result-cases (get_signer_identity_from_action lib action)) [
    | inl (s, e) ↦ (s, ground arith, ground arith)
    | inr (m, e) ↦ ground arith
  ]

  pub apply_increase-ok :
      apply_increase_expected_amount lib action timestamp request ≡ ok request'
      → (signer : Identity) × (delta : Amount) × (new_amount : Amount) × Signed lib action request
          Role.payer signer
        × (request.state ≢ RequestState.canceled)
        × (action.content.parameters.delta_amount ≡ some delta)
        × (is_valid_amount delta ≡ true)
        × (add_amount lib.big request.expected_amount delta ≡ ok new_amount)
        × (request' ≡ (
            let copied : Request =
              record_action action
                (generate_delta_event ActionName.increase_expected_amount action timestamp signer)
                request in
            record copied { expected_amount = new_amount }))
  unfolding apply_increase_expected_amount
  apply_increase-ok h = elim (Result-cases (get_signer_identity_from_action lib action)) [
    | inl (s, e) ↦ elim (Option-cases action.content.parameters.delta_amount) [
      | inl missing ↦ ground arith
      | inr (d, given_delta) ↦
          let copied : Request =
            record_action action
              (generate_delta_event ActionName.increase_expected_amount action timestamp s)
              request in
          let (n, r, st, sum, same) =
            increased_request-ok lib (get_role_in_request s request) request.state
              request.expected_amount d copied {request' = request'} (ground arith) in
          (
            s,
            d,
            n,
            record { recovered = e; has_role = r },
            st,
            given_delta,
            ground arith,
            sum,
            same,
          )
    ]
    | inr (m, e) ↦ ground arith
  ]

  pub apply_reduce-ok :
      apply_reduce_expected_amount lib action timestamp request ≡ ok request'
      → (signer : Identity) × (delta : Amount) × (new_amount : Amount) × Signed lib action request
          Role.payee signer
        × (request.state ≢ RequestState.canceled)
        × (action.content.parameters.delta_amount ≡ some delta)
        × (is_valid_amount delta ≡ true)
        × (reduce_amount lib.big request.expected_amount delta ≡ ok new_amount)
        × (request' ≡ (
            let copied : Request =
              record_action action
                (generate_delta_event ActionName.reduce_expected_amount action timestamp signer)
                request in
            record copied { expected_amount = new_amount }))
  unfolding apply_reduce_expected_amount
  apply_reduce-ok h = elim (Result-cases (get_signer_identity_from_action lib action)) [
    | inl (s, e) ↦ elim (Option-cases action.content.parameters.delta_amount) [
      | inl missing ↦ ground arith
      | inr (d, given_delta) ↦
          let copied : Request =
            record_action action
              (generate_delta_event ActionName.reduce_expected_amount action timestamp s) request in
          let (n, r, st, sum, same) =
            reduced_request-ok lib (get_role_in_request s request) request.state
              request.expected_amount d copied {request' = request'} (ground arith) in
          (
            s,
            d,
            n,
            record { recovered = e; has_role = r },
            st,
            given_delta,
            ground arith,
            sum,
            same,
          )
    ]
    | inr (m, e) ↦ ground arith
  ]

  pub apply_add_stakeholders-ok :
      apply_add_stakeholders lib action timestamp request ≡ ok request'
      → (signer : Identity) × (get_signer_identity_from_action lib action ≡ ok signer)
        × (request'
            ≡ record_action action
                (generate_event ActionName.add_stakeholders action timestamp signer)
                request)
  unfolding apply_add_stakeholders
  apply_add_stakeholders-ok h = elim (Result-cases (get_signer_identity_from_action lib action)) [
    | inl (s, e) ↦ (s, e, ground arith)
    | inr (m, e) ↦ ground arith
  ]

  pub apply_add_extensions_data-ok :
      apply_add_extensions_data lib action timestamp request ≡ ok request'
      → (signer : Identity) × (get_signer_identity_from_action lib action ≡ ok signer)
        × (request'
            ≡ record_action action
                (generate_event ActionName.add_extensions_data action timestamp signer)
                request)
  unfolding apply_add_extensions_data
  apply_add_extensions_data-ok h =
      elim (Result-cases (get_signer_identity_from_action lib action)) [
        | inl (s, e) ↦ (s, e, ground arith)
        | inr (m, e) ↦ ground arith
      ]
