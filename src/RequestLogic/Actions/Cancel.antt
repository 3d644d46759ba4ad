-- ===== src/RequestLogic/Actions/Cancel.antt =====
-- packages/request-logic/src/actions/cancel.ts.
use request_network.Base.{ℕ, not, Result, ok, err, ◌>>=◌, ◌>>◌, throw_if, given}
use request_network.Types.{
  Identity, ActionName, RequestState, Role, ActionParameters, Action, Request,
}
use request_network.RequestLogic.Library.{Library}
use request_network.RequestLogic.Role.{get_role_in_request}
use request_network.RequestLogic.Version.{specification_version}
use request_network.RequestLogic.Action.{
  SignatureProvider, create_action, get_signer_identity_from_action,
}
use request_network.RequestLogic.Actions.Common.{generate_event, record_action}

unfoldable pub format_cancel : ActionParameters → Identity → SignatureProvider → Result Action
unfolding create_action
format_cancel parameters signer provider =
    create_action provider
      (record {
        name = ActionName.cancel;
        version = specification_version.current;
        parameters = parameters;
      })
      signer

module _ {N : Type 0} (lib : Library N) where
  unfoldable pub apply_cancel : Action → ℕ → Request → Result Request
  unfolding get_role_in_request generate_event record_action
  apply_cancel action timestamp request = do
    throw_if (not (given action.content.parameters.request_id)) "requestId must be given"
    signer ← get_signer_identity_from_action lib action
    let role = get_role_in_request signer request
    let copied =
        record_action action (generate_event ActionName.cancel action timestamp signer) request
    let canceled = record copied { state = RequestState.canceled }
    elim role [
      | Role.payer ↦ elim request.state [
        | RequestState.created ↦ ok canceled
        | _ ↦ err "A payer cancel need to be done on a request with the state created"
      ]
      | Role.payee ↦ elim request.state [
        | RequestState.canceled ↦ err "Cannot cancel an already canceled request"
        | _ ↦ ok canceled
      ]
      | Role.third_party ↦ err "Signer must be the payer or the payee"
    ]
