-- ===== src/RequestLogic/Actions/IncreaseExpectedAmount.antt =====
-- packages/request-logic/src/actions/increaseExpectedAmount.ts.
use request_network.Base.{
  ℕ, not, Option, none, some, Result, ok, err, ◌>>=◌, ◌>>◌, throw_if, given, is_some, false, Bool,
}
use request_network.Types.{
  Identity, Amount, given_amount, ActionName, RequestState, Role, ActionParameters, Action, Request,
}
use request_network.Amount.{is_valid_amount, add_amount}
use request_network.RequestLogic.Library.{Library}
use request_network.RequestLogic.Role.{get_role_in_request}
use request_network.RequestLogic.Version.{specification_version}
use request_network.RequestLogic.Action.{
  SignatureProvider, create_action, get_signer_identity_from_action,
}
use request_network.RequestLogic.Actions.Common.{generate_delta_event, record_action}

-- `isValidAmount` on an amount that may be undefined.
abbrev is_valid : Option Amount → Bool
is_valid none = false
is_valid (some a) = is_valid_amount a

unfoldable pub format_increase_expected_amount :
    ActionParameters → Identity → SignatureProvider → Result Action
unfolding create_action is_valid_amount
format_increase_expected_amount parameters signer provider = do
  throw_if (not (is_valid parameters.delta_amount))
      "deltaAmount must be a string representing a positive integer"
  create_action provider
      (record {
        name = ActionName.increase_expected_amount;
        version = specification_version.current;
        parameters = parameters;
      })
      signer

-- The amount behind the tests above, which let no undefined one through.
abbrev required : Option Amount → Result Amount
required none = err "deltaAmount must be given"
required (some a) = ok a

module _ {N : Type 0} (lib : Library N) where
  -- The new amount, by a party with the role, on a request that is not canceled.
  unfoldable pub increased_request :
      Role → RequestState → Amount → Amount → Request → Result Request
  unfolding add_amount
  increased_request Role.payer RequestState.canceled amount delta copied =
      err "the request must not be canceled"
  increased_request Role.payer _ amount delta copied = do
    new_amount ← add_amount lib.big amount delta
    ok (record copied { expected_amount = new_amount })
  increased_request _ _ amount delta copied = err "signer must be the payer"

  unfoldable pub apply_increase_expected_amount : Action → ℕ → Request → Result Request
  unfolding get_role_in_request generate_delta_event record_action increased_request is_valid_amount
  apply_increase_expected_amount action timestamp request = do
    throw_if (not (given action.content.parameters.request_id)) "requestId must be given"
    throw_if (not (is_some request.payer)) "the request must have a payer"
    throw_if (not (given_amount action.content.parameters.delta_amount)) "deltaAmount must be given"
    throw_if (not (is_valid action.content.parameters.delta_amount))
        "deltaAmount must be a string representing a positive integer"
    signer ← get_signer_identity_from_action lib action
    let role = get_role_in_request signer request
    let event = generate_delta_event ActionName.increase_expected_amount action timestamp signer
    let copied = record_action action event request
    delta ← required action.content.parameters.delta_amount
    increased_request role request.state request.expected_amount delta copied
