-- ===== src/RequestLogic/Actions/Accept.antt =====
-- packages/request-logic/src/actions/accept.ts.
use request_network.Base.{
  ℕ, not, Result, ok, err, ◌>>=◌, ◌>>◌, throw_if, given, is_some, true, false, Bool,
}
use request_network.Types.{
  Identity, ActionName, RequestState, Role, ActionParameters, Action, Request,
}
use request_network.RequestLogic.Library.{Library}
use request_network.RequestLogic.Role.{get_role_in_request}
use request_network.RequestLogic.Version.{specification_version}
use request_network.RequestLogic.Action.{
  SignatureProvider, create_action, get_signer_identity_from_action,
}
use request_network.RequestLogic.Actions.Common.{generate_event, record_action}

unfoldable pub format_accept : ActionParameters → Identity → SignatureProvider → Result Action
unfolding create_action
format_accept parameters signer provider =
    create_action provider
      (record {
        name = ActionName.accept;
        version = specification_version.current;
        parameters = parameters;
      })
      signer

abbrev pub is_created : RequestState → Bool
is_created RequestState.created = true
is_created _ = false

module _ {N : Type 0} (lib : Library N) where
  -- The state is set before the copy is made, and the copy keeps it.
  unfoldable pub apply_accept : Action → ℕ → Request → Result Request
  unfolding get_role_in_request generate_event record_action
  apply_accept action timestamp request = do
    throw_if (not (given action.content.parameters.request_id)) "requestId must be given"
    throw_if (not (is_some request.payer)) "the request must have a payer"
    throw_if (not (is_created request.state)) "the request state must be created"
    signer ← get_signer_identity_from_action lib action
    let role = get_role_in_request signer request
    let accepted = record request { state = RequestState.accepted }
    elim role [
      | Role.payer ↦
          ok (
            record_action action (generate_event ActionName.accept action timestamp signer)
              accepted)
      | _ ↦ err "Signer must be the payer"
    ]
