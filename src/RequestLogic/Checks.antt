-- ===== src/RequestLogic/Checks.antt =====
-- packages/request-logic/src/request.ts.
use request_network.Base.{
  Bool, true, false, not, ◌&&◌, Option, none, some, List, ◌++◌, Result, ◌>>◌, throw_if, truthy,
  is_some,
}
use request_network.Types.{Identity, ethereum_address, given_currency, ExtensionAction, Request}
use request_network.Amount.{is_valid_amount}

-- `identity.type !== ETHEREUM_ADDRESS`, and the same where the identity may be missing
abbrev pub is_foreign : Identity → Bool
is_foreign id = elim id.type [ ethereum_address ↦ false | _ ↦ true ]

abbrev pub is_given_and_foreign : Option Identity → Bool
is_given_and_foreign none = false
is_given_and_foreign (some id) = is_foreign id

-- `checkRequest`; a request of this type has a state, so that it is missing is no case.
unfoldable pub check_request : Request → Result (Unit {0})
unfolding is_valid_amount
check_request request = do
  throw_if (not (truthy request.version)) "request.version is missing"
  throw_if (not (given_currency request.currency)) "request.currency is missing"
  throw_if (not (truthy request.request_id)) "request.requestId is missing"
  throw_if (not (is_some request.creator)) "request.creator is missing"
  throw_if (not (is_some request.payee) && not (is_some request.payer))
      "request.payee and request.payer are missing"
  throw_if (is_given_and_foreign request.creator) "request.creator.type not supported"
  throw_if (is_given_and_foreign request.payee) "request.payee.type not supported"
  throw_if (is_given_and_foreign request.payer) "request.payer.type not supported"
  throw_if (not (is_valid_amount request.expected_amount))
      "expectedAmount must be a positive integer"

-- `(requestContext.extensionsData || []).concat(extensionsData)`
abbrev concat_extensions_data :
    Option (List ExtensionAction) → List ExtensionAction → List ExtensionAction
concat_extensions_data none more = more
concat_extensions_data (some old) more = old ++ more

unfoldable pub push_extensions_data : Request → Option (List ExtensionAction) → Request
push_extensions_data request none = request
push_extensions_data request (some more) = record request {
  extensions_data = some (concat_extensions_data request.extensions_data more);
}
