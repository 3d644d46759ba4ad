-- ===== src/AdvancedLogic/AddressBased.antt =====
-- packages/advanced-logic/src/extensions/payment-network/address-based.ts. The methods that a
-- subclass may override are the fields of `AddressRules`.
pub mod Laws
use request_network.Base.{
  ℕ, String, Bool, not, Option, none, some, [], ◌∷◌, ◌++◌, Result, ok, err, ◌>>=◌, ◌>>◌, throw_if,
  append, str_eq, given, is_some, if◌then◌else◌,
}
use request_network.Types.{
  CurrencyType, eth, btc, iso4217, erc20, erc777, legacy, currency, ExtensionType, ExtensionValues,
  no_values, ExtensionAction, ExtensionEvent, ExtensionState, Request,
}
use request_network.Amount.{BigNumber}
use request_network.Identity.{are_equal_identities}
use request_network.AdvancedLogic.Extension.{ApplyAction, create_creation_action, read_parameters}
use request_network.AdvancedLogic.Currency.{CurrencyManager, unsupported_currency_error}
use request_network.AdvancedLogic.Declarative.{declarative_creation, declarative_actions}

-- `isValidAddress` and `throwIfInvalidNetwork`, the methods of an instance.
pub record AddressRules : Type 0 where
  pub is_valid_address : String → Result Bool
  pub throw_if_invalid_network : Option String → Result (Unit {0})

-- `InvalidPaymentAddressError`
unfoldable pub invalid_address_error : String → String → String
invalid_address_error address reference =
    append reference (append " '" (append address "' is not a valid address"))

-- `if (address && !this.isValidAddress(address)) throw …`
unfoldable pub check_address : AddressRules → Option String → (String → String) → Result (Unit {0})
check_address rules none message = ok tt
check_address rules (some address) message =
    if str_eq address ""
    then ok tt
    else rules.is_valid_address address >>= λ valid. throw_if (not valid) (message address)

abbrev pub payment_address_error : String → String
payment_address_error address = invalid_address_error address "paymentAddress"

abbrev pub refund_address_error : String → String
refund_address_error address = invalid_address_error address "refundAddress"

-- `isValidAddressForSymbolAndNetwork`
unfoldable pub is_valid_address_for : CurrencyManager → String → String → String → Result Bool
is_valid_address_for manager address symbol network = elim (manager.find symbol network) [
  | none ↦ err (unsupported_currency_error symbol network)
  | some definition ↦ ok (manager.validate_address address definition)
]

abbrev pub currency_name : CurrencyType → String
currency_name eth = "ETH"
currency_name btc = "BTC"
currency_name iso4217 = "ISO4217"
currency_name erc20 = "ERC20"
currency_name erc777 = "ERC777"

-- `isValidAddress` of this class
unfoldable pub default_is_valid_address : CurrencyManager → CurrencyType → String → Result Bool
unfolding is_valid_address_for
default_is_valid_address manager eth address = is_valid_address_for manager address "ETH" "mainnet"
default_is_valid_address manager erc20 address =
    is_valid_address_for manager address "ETH" "mainnet"
default_is_valid_address manager erc777 address =
    is_valid_address_for manager address "ETH" "mainnet"
default_is_valid_address manager t address = err (
    append "Default implementation of isValidAddressForNetwork() does not support currency type "
      (append (currency_name t) ". Please override this method if needed."))

-- `throwIfInvalidNetwork` of this class
unfoldable pub default_throw_if_invalid_network : Option String → Result (Unit {0})
default_throw_if_invalid_network network = throw_if (not (given network)) "network is required"

abbrev pub same_currency_type : CurrencyType → CurrencyType → Bool
same_currency_type a b = str_eq (currency_name a) (currency_name b)

module _ (rules : AddressRules) where
  unfoldable pub create_address_based_action :
      String → String → ExtensionValues → Result ExtensionAction
  unfolding check_address create_creation_action
  create_address_based_action extension_id current_version p = do
    check_address rules p.payment_address payment_address_error
    check_address rules p.refund_address refund_address_error
    ok (create_creation_action extension_id current_version p)

  unfoldable pub create_add_payment_address_action : String → Option String → Result ExtensionAction
  unfolding check_address
  create_add_payment_address_action extension_id address = do
    check_address rules address payment_address_error
    ok (record {
      action = "addPaymentAddress";
      id = extension_id;
      parameters = some (record no_values { payment_address = address });
      version = none;
    })

  unfoldable pub create_add_refund_address_action : String → Option String → Result ExtensionAction
  unfolding check_address
  create_add_refund_address_action extension_id address = do
    check_address rules address refund_address_error
    ok (record {
      action = "addRefundAddress";
      id = extension_id;
      parameters = some (record no_values { refund_address = address });
      version = none;
    })

  -- `applyCreation`; the identifier of the state is that of the extension.
  unfoldable pub address_based_creation : String → ExtensionAction → ℕ → Result ExtensionState
  unfolding check_address declarative_creation
  address_based_creation extension_id action timestamp = do
    p ← read_parameters action "paymentAddress"
    check_address rules p.payment_address payment_address_error
    check_address rules p.refund_address refund_address_error
    generic ← declarative_creation action timestamp
    let shown : ExtensionValues = record no_values {
      payment_address = p.payment_address;
      refund_address = p.refund_address;
    }
    let created : ExtensionEvent = record {
      name = "create";
      parameters = shown;
      timestamp = timestamp;
      sender = none;
    }
    let values = generic.values
    ok (record generic {
      events = created ∷ [];
      id = extension_id;
      type = ExtensionType.payment_network;
      values = record values {
        payment_address = p.payment_address;
        refund_address = p.refund_address;
      };
    })

  -- An event with no `from`.
  abbrev pub push_plain_event : ExtensionState → String → ExtensionValues → ℕ → ExtensionState
  push_plain_event state name parameters timestamp = record state {
    events =
        state.events
        ++ record { name = name; parameters = parameters; timestamp = timestamp; sender = none }
          ∷ [];
  }

  unfoldable pub apply_add_payment_address : ApplyAction
  unfolding check_address are_equal_identities
  apply_add_payment_address state action request signer timestamp = do
    p ← read_parameters action "paymentAddress"
    check_address rules p.payment_address payment_address_error
    throw_if (given state.values.payment_address) "Payment address already given"
    throw_if (not (is_some request.payee)) "The request must have a payee"
    throw_if (not (are_equal_identities (some signer) request.payee)) "The signer must be the payee"
    let values = state.values
    let assigned : ExtensionState = record state {
      values = record values { payment_address = p.payment_address };
    }
    let shown : ExtensionValues = record no_values { payment_address = p.payment_address }
    ok (push_plain_event assigned "addPaymentAddress" shown timestamp)

  unfoldable pub apply_add_refund_address : ApplyAction
  unfolding check_address are_equal_identities
  apply_add_refund_address state action request signer timestamp = do
    p ← read_parameters action "refundAddress"
    check_address rules p.refund_address (λ address. "refundAddress is not a valid address")
    throw_if (given state.values.refund_address) "Refund address already given"
    throw_if (not (is_some request.payer)) "The request must have a payer"
    throw_if (not (are_equal_identities (some signer) request.payer)) "The signer must be the payer"
    let values = state.values
    let assigned : ExtensionState = record state {
      values = record values { refund_address = p.refund_address };
    }
    let shown : ExtensionValues = record no_values { refund_address = p.refund_address }
    ok (push_plain_event assigned "addRefundAddress" shown timestamp)

  -- `validate`: the type and the network of the currency of the request.
  unfoldable pub address_based_validate :
      CurrencyType → Request → ExtensionAction → Result (Unit {0})
  address_based_validate supported request action =
      let unsupported : String =
        append "This extension can be used only on "
          (append (currency_name supported) " requests") in
      elim request.currency [
        | some (currency c) ↦ do
          throw_if (not (same_currency_type c.type supported)) unsupported
          rules.throw_if_invalid_network c.network
        | some (legacy name) ↦ err unsupported
        | none ↦ err "Cannot read properties of undefined (reading 'type')"
      ]

  unfoldable pub address_based_actions : {N : Type 0} → BigNumber N → String → Option ApplyAction
  unfolding declarative_actions apply_add_payment_address apply_add_refund_address
  address_based_actions big name =
      if str_eq name "addPaymentAddress"
      then some apply_add_payment_address
      else if str_eq name "addRefundAddress"
      then some apply_add_refund_address
      else declarative_actions big name
