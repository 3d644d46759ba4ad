-- ===== src/AdvancedLogic/Tests.antt =====
-- The theorems on extensions at a declarative and at an address-based payment network.
use request_network.Base.{
  ◌≡◌, ◌≢◌, [], refl, String, some, none, Result, ok, err, true, false, lookup, insert,
}
use request_network.Base.Int.{◌+ℤ◌}
use request_network.Types.{
  Identity, ethereum_address, text, CurrencyType, currency, RequestState, Role, ExtensionType,
  ExtensionValues, no_values, ExtensionAction, ExtensionState, ExtensionStates, Request,
}
use request_network.Amount.Instance.{integers, integers-IsBigNumber}
use request_network.Identity.{are_equal_identities}
use request_network.AdvancedLogic.Extension.{
  Extension, abstract_creation, apply_action_to_extension,
}
use request_network.AdvancedLogic.Extension.Laws.{Step, apply-Step}
use request_network.AdvancedLogic.Declarative.{
  declarative, declarative_creation, declarative_actions, check_identities, add_optional, declare,
  Counter, apply_declare_sent_payment,
}
use request_network.AdvancedLogic.Declarative.Declarations.{Declares, action-Declares}
use request_network.AdvancedLogic.Declarative.Counters.{IsCounted}
use request_network.AdvancedLogic.Declarative.Counters.Network.{
  action-IsCounted, creation-IsCounted,
}
use request_network.AdvancedLogic.AddressBased.{
  AddressRules, check_address, payment_address_error, apply_add_payment_address,
  apply_add_refund_address,
}
use request_network.AdvancedLogic.FeeReferenceBased.{
  check_fee_amount, check_fee_address, apply_add_fee,
}
use request_network.AdvancedLogic.FeeReferenceBased.Laws.{apply_add_fee-ok}
use request_network.AdvancedLogic.AddressBased.Laws.{
  apply_add_payment_address-ok, apply_add_refund_address-ok,
}

abbrev alice : Identity
alice = record { type = ethereum_address; value = "0xaaaaaaaaaaaaaaaaaaaaaaaaaaaaaaaaaaaaaaaa" }

abbrev bob : Identity
bob = record { type = ethereum_address; value = "0xbbbbbbbbbbbbbbbbbbbbbbbbbbbbbbbbbbbbbbbb" }

abbrev request : Request
request = record {
  version = "2.0.3";
  request_id = "01ab";
  creator = some alice;
  currency =
      some (currency (record { type = CurrencyType.iso4217; value = "EUR"; network = none }));
  state = RequestState.created;
  expected_amount = text "1000";
  payee = some alice;
  payer = some bob;
  extensions = [];
  extensions_data = none;
  events = [];
  timestamp = some 7;
  nonce = none;
}

abbrev network : Extension
network = declarative integers "pn-any-declarative" "0.1.0"

abbrev action_of : String → ExtensionValues → ExtensionAction
action_of name values = record {
  action = name;
  id = "pn-any-declarative";
  parameters = some values;
  version = some "0.1.0";
}

abbrev creation : ExtensionAction
creation = action_of "create" no_values

abbrev payment : ExtensionAction
payment = action_of "declareSentPayment" (record no_values { amount = some (text "300") })

abbrev blank : ExtensionState
blank = record {
  type = ExtensionType.payment_network;
  id = "pn-any-declarative";
  version = "0.1.0";
  events = [];
  values = no_values;
}

-- The state that a call returns.
abbrev or_blank : Result ExtensionState → ExtensionState
or_blank (ok s) = s
or_blank (err e) = blank

abbrev created : ExtensionState
created = or_blank (declarative_creation creation 8)

-- Bob declares that he has sent 300.
abbrev paid : ExtensionState
paid = or_blank (apply_declare_sent_payment integers created payment request bob 9)

abbrev with_created : ExtensionStates
with_created = insert "pn-any-declarative" created []

extensions : Unit {0}
unfolding apply_action_to_extension lookup insert declarative declarative_creation abstract_creation
    declarative_actions check_identities add_optional declare apply_declare_sent_payment
    are_equal_identities integers ◌+ℤ◌ check_address apply_add_payment_address
    apply_add_refund_address
extensions = tt

creation-IsCounted_example : IsCounted Counter.sent_payment created
unfolding extensions
creation-IsCounted_example =
    creation-IsCounted Counter.sent_payment creation 8 {next = created} refl

action-Declares_example :
    Declares Role.payer Counter.sent_payment "declareSentPayment" created payment request bob 9 paid
unfolding extensions
action-Declares_example =
    action-Declares integers integers-IsBigNumber Counter.sent_payment
      {apply = apply_declare_sent_payment integers} created payment request bob 9 {next = paid} refl
      refl

action-IsCounted_example : IsCounted Counter.sent_payment paid
unfolding extensions
action-IsCounted_example =
    action-IsCounted integers integers-IsBigNumber "declareSentPayment"
      {apply = apply_declare_sent_payment integers} Counter.sent_payment created payment request bob
      9 {next = paid} refl
      (creation-IsCounted Counter.sent_payment creation 8 {next = created} refl) refl

apply-Step_example :
    (next : ExtensionState) × Step network [] creation request alice 8 next
    × (lookup "pn-any-declarative" with_created ≡ some next)
    × ((j : String) → j ≢ "pn-any-declarative" → lookup j with_created ≡ lookup j [])
unfolding extensions
apply-Step_example = apply-Step network [] creation request alice 8 {after = with_created} refl

-- A network that takes every address.
abbrev rules : AddressRules
rules = record { is_valid_address = λ address. ok true; throw_if_invalid_network = λ name. ok tt }

abbrev addresses : ExtensionAction
addresses =
    action_of "addPaymentAddress"
      (record no_values { payment_address = some "0xcc"; refund_address = some "0xdd" })

abbrev payable : ExtensionState
payable = or_blank (apply_add_payment_address rules blank addresses request alice 9)

abbrev refundable : ExtensionState
refundable = or_blank (apply_add_refund_address rules blank addresses request bob 9)

apply_add_payment_address-ok_example :
    (p : ExtensionValues) × (addresses.parameters ≡ some p)
    × (check_address rules p.payment_address payment_address_error ≡ ok tt)
    × (false ≡ false)
    × (are_equal_identities (some alice) request.payee ≡ true)
    × (payable.values.payment_address ≡ p.payment_address)
    × (payable.values.refund_address ≡ none)
unfolding extensions
apply_add_payment_address-ok_example =
    apply_add_payment_address-ok rules blank addresses request alice 9 {next = payable} refl

apply_add_refund_address-ok_example :
    (p : ExtensionValues) × (addresses.parameters ≡ some p)
    × (check_address rules p.refund_address (λ address. "refundAddress is not a valid address")
        ≡ ok tt)
    × (false ≡ false)
    × (are_equal_identities (some bob) request.payer ≡ true)
    × (refundable.values.refund_address ≡ p.refund_address)
    × (refundable.values.payment_address ≡ none)
unfolding extensions
apply_add_refund_address-ok_example =
    apply_add_refund_address-ok rules blank addresses request bob 9 {next = refundable} refl

abbrev fee : ExtensionAction
fee =
    action_of "addFee"
      (record no_values { fee_address = some "0xee"; fee_amount = some (text "5") })

abbrev with_fee : ExtensionState
with_fee = or_blank (apply_add_fee rules blank fee request alice 9)

apply_add_fee-ok_example :
    (p : ExtensionValues) × (fee.parameters ≡ some p)
    × (check_fee_address rules p.fee_address ≡ ok tt)
    × (check_fee_amount p.fee_amount ≡ ok tt)
    × (false ≡ false)
    × (false ≡ false)
    × (are_equal_identities (some alice) request.payee ≡ true)
    × (with_fee.values.fee_address ≡ p.fee_address)
    × (with_fee.values.fee_amount ≡ p.fee_amount)
    × (with_fee.values.payment_address ≡ none)
    × (with_fee.values.refund_address ≡ none)
unfolding extensions apply_add_fee
apply_add_fee-ok_example = apply_add_fee-ok rules blank fee request alice 9 {next = with_fee} refl
