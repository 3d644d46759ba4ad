-- ===== src/RequestLogic/Actions/AddStakeholders.antt =====
-- packages/request-logic/src/actions/addStakeholders.ts.
use request_network.Base.{ℕ, not, Result, ok, ◌>>=◌, ◌>>◌, throw_if, given}
use request_network.Types.{Identity, ActionName, ActionParameters, Action, Request}
use request_network.RequestLogic.Library.{Library}
use request_network.RequestLogic.Version.{specification_version}
use request_network.RequestLogic.Action.{
  SignatureProvider, create_action, get_signer_identity_from_action,
}
use request_network.RequestLogic.Actions.Common.{generate_event, record_action}

unfoldable pub format_add_stakeholders :
    ActionParameters → Identity → SignatureProvider → Result Action
unfolding create_action
format_add_stakeholders parameters signer provider =
    create_action provider
      (record {
        name = ActionName.add_stakeholders;
        version = specification_version.current;
        parameters = parameters;
      })
      signer

module _ {N : Type 0} (lib : Library N) where
  unfoldable pub apply_add_stakeholders : Action → ℕ → Request → Result Request
  unfolding generate_event record_action
  apply_add_stakeholders action timestamp request = do
    throw_if (not (given action.content.parameters.request_id)) "requestId must be given"
    signer ← get_signer_identity_from_action lib action
    ok (
        record_action action (generate_event ActionName.add_stakeholders action timestamp signer)
          request)
