-- ===== src/RequestLogic/Actions/AddExtensionsData.antt =====
-- packages/request-logic/src/actions/addExtensionsData.ts.
use request_network.Base.{
  ℕ, not, true, false, Option, none, some, List, [], ◌∷◌, Result, ok, ◌>>=◌, ◌>>◌, throw_if, given,
  Bool,
}
use request_network.Types.{Identity, ExtensionAction, ActionName, ActionParameters, Action, Request}
use request_network.RequestLogic.Library.{Library}
use request_network.RequestLogic.Version.{specification_version}
use request_network.RequestLogic.Action.{
  SignatureProvider, create_action, get_signer_identity_from_action,
}
use request_network.RequestLogic.Actions.Common.{generate_event, record_action}

-- `!extensionsData || extensionsData.length === 0`
abbrev is_empty : Option (List ExtensionAction) → Bool
is_empty none = true
is_empty (some []) = true
is_empty (some (a ∷ l)) = false

unfoldable pub format_add_extensions_data :
    ActionParameters → Identity → SignatureProvider → Result Action
unfolding create_action
format_add_extensions_data parameters signer provider = do
  throw_if (is_empty parameters.extensions_data) "extensionsData must be given"
  create_action provider
      (record {
        name = ActionName.add_extensions_data;
        version = specification_version.current;
        parameters = parameters;
      })
      signer

module _ {N : Type 0} (lib : Library N) where
  unfoldable pub apply_add_extensions_data : Action → ℕ → Request → Result Request
  unfolding generate_event record_action
  apply_add_extensions_data action timestamp request = do
    throw_if (not (given action.content.parameters.request_id)) "requestId must be given"
    throw_if (is_empty action.content.parameters.extensions_data) "extensionsData must be given"
    signer ← get_signer_identity_from_action lib action
    ok (
        record_action action (generate_event ActionName.add_extensions_data action timestamp signer)
          request)
