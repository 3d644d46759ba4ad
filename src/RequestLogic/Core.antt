-- ===== src/RequestLogic/Core.antt =====
-- packages/request-logic/src/requestLogicCore.ts. The advanced logic that may be given is one
-- function, `applyActionToExtensions`.
use request_network.Base.{
  ℕ, not, String, Option, none, some, List, [], ◌∷◌, Result, ok, err, ◌>>=◌, ◌>>◌, throw_if,
}
use request_network.Types.{Identity, ExtensionAction, ExtensionStates, ActionName, Action, Request}
use request_network.RequestLogic.Library.{Library}
use request_network.RequestLogic.Action.{
  get_signer_identity_from_action, get_request_id, is_action_version_supported,
}
use request_network.RequestLogic.Checks.{check_request}
use request_network.RequestLogic.Actions.Create.{create_request}
use request_network.RequestLogic.Actions.Accept.{apply_accept}
use request_network.RequestLogic.Actions.Cancel.{apply_cancel}
use request_network.RequestLogic.Actions.IncreaseExpectedAmount.{apply_increase_expected_amount}
use request_network.RequestLogic.Actions.ReduceExpectedAmount.{apply_reduce_expected_amount}
use request_network.RequestLogic.Actions.AddStakeholders.{apply_add_stakeholders}
use request_network.RequestLogic.Actions.AddExtensionsData.{apply_add_extensions_data}

-- `IAdvancedLogic.applyActionToExtensions`
abbrev pub AdvancedLogic : Type 0
AdvancedLogic = ExtensionStates → ExtensionAction → Request → Identity → ℕ → Result ExtensionStates

-- `extensionsData.reduce`: the request that the extensions see is the same for all.
unfoldable pub reduce_extensions :
    AdvancedLogic
    → List ExtensionAction
    → Request
    → Result Identity
    → ℕ
    → ExtensionStates
    → Result ExtensionStates
reduce_extensions advanced [] request signer timestamp states = ok states
reduce_extensions advanced (a ∷ l) request signer timestamp states = do
  s ← signer
  next ← advanced states a request s timestamp
  reduce_extensions advanced l request signer timestamp next

module _ {N : Type 0} (lib : Library N) where
  unfoldable pub apply_extensions : Option AdvancedLogic → Action → ℕ → Request → Result Request
  unfolding reduce_extensions
  apply_extensions none action timestamp request = ok request
  apply_extensions (some advanced) action timestamp request =
      elim action.content.parameters.extensions_data [
        | none ↦ ok request
        | some l ↦ do
          states ←
              reduce_extensions advanced l request (get_signer_identity_from_action lib action)
                timestamp request.extensions
          ok (record request { extensions = states })
      ]

  -- The update that the name of the action selects.
  unfoldable pub update_request : Action → ℕ → Request → Result Request
  update_request action timestamp request = elim action.content.name [
    | ActionName.accept ↦ apply_accept lib action timestamp request
    | ActionName.cancel ↦ apply_cancel lib action timestamp request
    | ActionName.increase_expected_amount ↦
        apply_increase_expected_amount lib action timestamp request
    | ActionName.reduce_expected_amount ↦ apply_reduce_expected_amount lib action timestamp request
    | ActionName.add_stakeholders ↦ apply_add_stakeholders lib action timestamp request
    | ActionName.add_extensions_data ↦ apply_add_extensions_data lib action timestamp request
    | ActionName.broadcast ↦ err "Unknown action broadcastSignedRequest"
    | ActionName.create ↦ err "Unknown action create"
  ]

  -- The request after the action, before the extensions.
  unfoldable pub apply_core : Option Request → Action → ℕ → Result Request
  unfolding update_request
  apply_core request action timestamp = elim action.content.name [
    | ActionName.create ↦ elim request [
      | some r ↦ err "no request is expected at the creation"
      | none ↦ create_request lib action timestamp
    ]
    | _ ↦ elim request [
      | none ↦ err "request is expected"
      | some r ↦ check_request r >> update_request action timestamp r
    ]
  ]

  unfoldable pub apply_action_to_request :
      Option AdvancedLogic → Option Request → Action → ℕ → Result Request
  unfolding apply_core apply_extensions
  apply_action_to_request advanced request action timestamp = do
    throw_if (not (is_action_version_supported lib action)) "action version not supported"
    applied ← apply_core request action timestamp
    apply_extensions advanced action timestamp applied

  unfoldable pub get_request_id_from_action : Action → Result String
  get_request_id_from_action = get_request_id lib
