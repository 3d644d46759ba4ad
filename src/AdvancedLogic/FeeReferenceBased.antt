-- ===== src/AdvancedLogic/FeeReferenceBased.antt =====
-- packages/advanced-logic/src/extensions/payment-network/fee-reference-based.ts.
pub mod Laws
use request_network.Base.{
  ℕ, String, not, ◌&&◌, Option, none, some, [], ◌∷◌, Result, ok, ◌>>=◌, ◌>>◌, throw_if, given,
  is_some, str_eq, if◌then◌else◌,
}
use request_network.Types.{
  Amount, given_amount, ExtensionType, ExtensionValues, no_values, ExtensionAction, ExtensionEvent,
  ExtensionState, CurrencyType,
}
use request_network.Amount.{BigNumber, is_valid_amount}
use request_network.Identity.{are_equal_identities}
use request_network.AdvancedLogic.Extension.{ApplyAction, Extension, read_parameters}
use request_network.AdvancedLogic.AddressBased.{
  AddressRules, check_address, push_plain_event, address_based_validate, address_based_actions,
}
use request_network.AdvancedLogic.ReferenceBased.{
  create_reference_based_action, reference_based_creation,
}

-- `if (feeAmount && !isValidAmount(feeAmount)) throw …`
unfoldable pub check_fee_amount : Option Amount → Result (Unit {0})
unfolding is_valid_amount
check_fee_amount none = ok tt
check_fee_amount (some a) =
    throw_if (given_amount (some a) && not (is_valid_amount a)) "feeAmount is not a valid amount"

module _ (rules : AddressRules) where
  -- `if (feeAddress && !this.isValidAddress(feeAddress)) throw …`
  unfoldable pub check_fee_address : Option String → Result (Unit {0})
  unfolding check_address
  check_fee_address address = check_address rules address (λ a. "feeAddress is not a valid address")

  unfoldable pub create_fee_reference_based_action :
      String → String → ExtensionValues → Result ExtensionAction
  unfolding check_fee_amount check_fee_address create_reference_based_action
  create_fee_reference_based_action extension_id current_version p = do
    check_fee_address p.fee_address
    check_fee_amount p.fee_amount
    throw_if (not (given_amount p.fee_amount) && given p.fee_address)
        "feeAmount requires feeAddress"
    throw_if (given_amount p.fee_amount && not (given p.fee_address))
        "feeAddress requires feeAmount"
    create_reference_based_action rules extension_id current_version p

  unfoldable pub create_add_fee_action : String → ExtensionValues → Result ExtensionAction
  unfolding check_fee_amount check_fee_address
  create_add_fee_action extension_id p = do
    check_fee_address p.fee_address
    check_fee_amount p.fee_amount
    throw_if (given p.fee_address && not (given_amount p.fee_amount))
        "feeAddress requires feeAmount"
    throw_if (given_amount p.fee_amount && not (given p.fee_address))
        "feeAmount requires feeAddress"
    ok (record { action = "addFee"; id = extension_id; parameters = some p; version = none })

  unfoldable pub fee_reference_based_creation : String → ExtensionAction → ℕ → Result ExtensionState
  unfolding check_fee_amount check_fee_address reference_based_creation
  fee_reference_based_creation extension_id action timestamp = do
    p ← read_parameters action "feeAddress"
    check_fee_address p.fee_address
    check_fee_amount p.fee_amount
    proxy ← reference_based_creation rules extension_id action timestamp
    let shown : ExtensionValues = record no_values {
      fee_address = p.fee_address;
      fee_amount = p.fee_amount;
      payment_address = p.payment_address;
      refund_address = p.refund_address;
      salt = p.salt;
    }
    let created : ExtensionEvent = record {
      name = "create";
      parameters = shown;
      timestamp = timestamp;
      sender = none;
    }
    let values = proxy.values
    ok (record proxy {
      events = created ∷ [];
      values = record values { fee_address = p.fee_address; fee_amount = p.fee_amount };
    })

  unfoldable pub apply_add_fee : ApplyAction
  unfolding check_fee_amount check_fee_address are_equal_identities
  apply_add_fee state action request signer timestamp = do
    p ← read_parameters action "feeAddress"
    check_fee_address p.fee_address
    throw_if (given state.values.fee_address) "Fee address already given"
    check_fee_amount p.fee_amount
    throw_if (given_amount state.values.fee_amount) "Fee amount already given"
    throw_if (not (is_some request.payee)) "The request must have a payee"
    throw_if (not (are_equal_identities (some signer) request.payee)) "The signer must be the payee"
    let values = state.values
    let assigned : ExtensionState = record state {
      values = record values { fee_address = p.fee_address; fee_amount = p.fee_amount };
    }
    let shown : ExtensionValues = record no_values {
      fee_address = p.fee_address;
      fee_amount = p.fee_amount;
    }
    ok (push_plain_event rules assigned "addFee" shown timestamp)

  unfoldable pub fee_reference_based_actions :
      {N : Type 0} → BigNumber N → String → Option ApplyAction
  unfolding address_based_actions apply_add_fee
  fee_reference_based_actions big name =
      if str_eq name "addFee" then some apply_add_fee else address_based_actions rules big name

  -- An instance, for a type of currency.
  unfoldable pub fee_reference_based :
      {N : Type 0} → BigNumber N → String → String → CurrencyType → Extension
  unfolding fee_reference_based_creation fee_reference_based_actions address_based_validate
  fee_reference_based big extension_id current_version supported = record {
    extension_type = ExtensionType.payment_network;
    extension_id = extension_id;
    current_version = current_version;
    apply_creation = fee_reference_based_creation extension_id;
    validate = address_based_validate rules supported;
    actions = fee_reference_based_actions big;
  }
