-- ===== src/AdvancedLogic/Declarative.antt =====
-- packages/advanced-logic/src/extensions/payment-network/declarative.ts.
pub mod Actions
pub mod Declarations
pub mod Counters
use request_network.Base.{
  ℕ, String, Bool, true, false, not, ◌&&◌, ◌||◌, Option, none, some, List, [], ◌∷◌, ◌++◌, Result,
  ok, err, ◌>>=◌, ◌>>◌, throw_if, append, str_eq, is_some, if◌then◌else◌,
}
use request_network.Types.{
  Identity, Amount, text, given_json, ExtensionType, ExtensionValues, no_values, ExtensionAction,
  ExtensionEvent, ExtensionState, Role, Request,
}
use request_network.Amount.{BigNumber, is_valid_amount, add_amount}
use request_network.Identity.{are_equal_identities}
use request_network.AdvancedLogic.Extension.{
  ApplyAction, Extension, abstract_creation, no_validation, read_parameters,
}

-- The parameters of an action that may have none: `parameters?.x`.
abbrev optional_parameters : ExtensionAction → ExtensionValues
optional_parameters action = elim action.parameters [ none ↦ no_values | some p ↦ p ]

unfoldable pub declarative_creation : ExtensionAction → ℕ → Result ExtensionState
unfolding abstract_creation
declarative_creation action timestamp = do
  generic ← abstract_creation ExtensionType.payment_network action
  let p = optional_parameters action
  let given : ExtensionValues = record no_values {
    payment_info = p.payment_info;
    refund_info = p.refund_info;
    salt = p.salt;
    payee_delegate = p.payee_delegate;
    payer_delegate = p.payer_delegate;
  }
  let created : ExtensionEvent = record {
    name = "create";
    parameters = given;
    timestamp = timestamp;
    sender = none;
  }
  ok (record generic {
    events = created ∷ [];
    values = record given {
      received_payment_amount = some (text "0");
      received_refund_amount = some (text "0");
      sent_payment_amount = some (text "0");
      sent_refund_amount = some (text "0");
    };
  })

-- `checkIdentities`: the party with the role, or its delegate.
unfoldable pub check_identities : ExtensionState → Request → Identity → Role → Result (Unit {0})
unfolding are_equal_identities
check_identities state request signer Role.payer = do
  throw_if (not (is_some request.payer)) "The request must have a payer"
  throw_if
      (not (are_equal_identities (some signer) request.payer)
        && not (are_equal_identities (some signer) state.values.payer_delegate))
      "The signer must be the payer or the payerDelegate"
check_identities state request signer Role.payee = do
  throw_if (not (is_some request.payee)) "The request must have a payee"
  throw_if
      (not (are_equal_identities (some signer) request.payee)
        && not (are_equal_identities (some signer) state.values.payee_delegate))
      "The signer must be the payee or the payeeDelegate"
check_identities state request signer Role.third_party = err "The request must have a undefined"

-- The event of an action, pushed on the events of the state.
abbrev pub push_event : ExtensionState → String → ExtensionValues → ℕ → Identity → ExtensionState
push_event state name parameters timestamp signer = record state {
  events =
      state.events
      ++ record {
        name = name;
        parameters = parameters;
        timestamp = timestamp;
        sender = some signer;
      }
        ∷ [];
}

-- The parameters that the event of a declaration holds.
abbrev pub declared : ExtensionValues → ExtensionValues
declared p = record no_values {
  amount = p.amount;
  note = p.note;
  tx_hash = p.tx_hash;
  network = p.network;
}

-- `isValidAmount` of an amount that may be undefined.
abbrev pub is_valid : Option Amount → Bool
is_valid none = false
is_valid (some a) = is_valid_amount a

-- The four counters of a declarative payment network.
pub data Counter : Type 0 where
  sent_payment sent_refund received_payment received_refund : Counter

abbrev pub counter : Counter → ExtensionValues → Option Amount
counter Counter.sent_payment v = v.sent_payment_amount
counter Counter.sent_refund v = v.sent_refund_amount
counter Counter.received_payment v = v.received_payment_amount
counter Counter.received_refund v = v.received_refund_amount

abbrev pub set_counter : Counter → Amount → ExtensionValues → ExtensionValues
set_counter Counter.sent_payment a v = record v { sent_payment_amount = some a }
set_counter Counter.sent_refund a v = record v { sent_refund_amount = some a }
set_counter Counter.received_payment a v = record v { received_payment_amount = some a }
set_counter Counter.received_refund a v = record v { received_refund_amount = some a }

module _ {N : Type 0} (big : BigNumber N) where
  -- `addAmount` where each of the two may be undefined.
  unfoldable pub add_optional : Option Amount → Option Amount → Result Amount
  unfolding add_amount
  add_optional (some a) (some d) = add_amount big a d
  add_optional none d = err "amount must represent a positive integer"
  add_optional (some a) none =
      if is_valid_amount a
      then err "delta must represent a positive integer"
      else err "amount must represent a positive integer"

  -- The four declarations differ in the party, the counter and the name of the event.
  unfoldable pub declare : Role → Counter → String → ApplyAction
  unfolding check_identities add_optional is_valid_amount
  declare role which name state action request signer timestamp = do
    check_identities state request signer role
    p ← read_parameters action "amount"
    throw_if (not (is_valid p.amount)) "The amount is not a valid amount"
    sum ← add_optional (counter which state.values) p.amount
    let counted : ExtensionState = record state { values = set_counter which sum state.values }
    ok (push_event counted name (declared p) timestamp signer)

  unfoldable pub apply_declare_sent_payment : ApplyAction
  unfolding declare
  apply_declare_sent_payment = declare Role.payer Counter.sent_payment "declareSentPayment"

  unfoldable pub apply_declare_sent_refund : ApplyAction
  unfolding declare
  apply_declare_sent_refund = declare Role.payee Counter.sent_refund "declareSentRefund"

  unfoldable pub apply_declare_received_payment : ApplyAction
  unfolding declare
  apply_declare_received_payment =
      declare Role.payee Counter.received_payment "declareReceivedPayment"

  unfoldable pub apply_declare_received_refund : ApplyAction
  unfolding declare
  apply_declare_received_refund = declare Role.payer Counter.received_refund "declareReceivedRefund"

unfoldable pub apply_add_payment_instruction : ApplyAction
unfolding check_identities
apply_add_payment_instruction state action request signer timestamp = do
  throw_if (given_json state.values.payment_info) "The payment instruction already assigned"
  check_identities state request signer Role.payee
  p ← read_parameters action "paymentInfo"
  let values = state.values
  let assigned : ExtensionState = record state {
    values = record values { payment_info = p.payment_info };
  }
  let shown : ExtensionValues = record no_values { payment_info = p.payment_info }
  ok (push_event assigned "addPaymentInstruction" shown timestamp signer)

unfoldable pub apply_add_refund_instruction : ApplyAction
unfolding check_identities
apply_add_refund_instruction state action request signer timestamp = do
  throw_if (given_json state.values.refund_info) "The refund instruction already assigned"
  check_identities state request signer Role.payer
  p ← read_parameters action "refundInfo"
  let values = state.values
  let assigned : ExtensionState = record state {
    values = record values { refund_info = p.refund_info };
  }
  let shown : ExtensionValues = record no_values { refund_info = p.refund_info }
  ok (push_event assigned "addRefundInstruction" shown timestamp signer)

-- The delegate of the payee or of the payer, by the signer.
unfoldable pub apply_add_delegate : ApplyAction
unfolding are_equal_identities
apply_add_delegate state action request signer timestamp =
    let values : ExtensionValues = state.values in
    let done : ExtensionValues → ExtensionValues → Result ExtensionState = λ v p.
      let assigned : ExtensionState = record state { values = v } in
      let shown : ExtensionValues = record no_values { delegate = p.delegate } in
      ok (push_event assigned "addDelegate" shown timestamp signer) in
    if are_equal_identities (some signer) request.payee
    then (throw_if (is_some values.payee_delegate) "The payeeDelegate is already assigned"
        >> (read_parameters action "delegate" >>= λ p.
            done (record values { payee_delegate = p.delegate }) p))
    else if are_equal_identities (some signer) request.payer
    then (throw_if (is_some values.payer_delegate) "The payerDelegate is already assigned"
        >> (read_parameters action "delegate" >>= λ p.
            done (record values { payer_delegate = p.delegate }) p))
    else err "The signer must be the payee or the payer"

module _ {N : Type 0} (big : BigNumber N) where
  -- `this.actions`
  unfoldable pub declarative_actions : String → Option ApplyAction
  unfolding apply_declare_sent_payment apply_declare_sent_refund apply_declare_received_payment
      apply_declare_received_refund apply_add_payment_instruction apply_add_refund_instruction
      apply_add_delegate
  declarative_actions name =
      if str_eq name "addPaymentInstruction"
      then some apply_add_payment_instruction
      else if str_eq name "addRefundInstruction"
      then some apply_add_refund_instruction
      else if str_eq name "declareSentPayment"
      then some (apply_declare_sent_payment big)
      else if str_eq name "declareSentRefund"
      then some (apply_declare_sent_refund big)
      else if str_eq name "declareReceivedPayment"
      then some (apply_declare_received_payment big)
      else if str_eq name "declareReceivedRefund"
      then some (apply_declare_received_refund big)
      else if str_eq name "addDelegate"
      then some apply_add_delegate
      else none

  unfoldable pub declarative : String → String → Extension
  unfolding declarative_creation declarative_actions
  declarative extension_id current_version = record {
    extension_type = ExtensionType.payment_network;
    extension_id = extension_id;
    current_version = current_version;
    apply_creation = declarative_creation;
    validate = no_validation;
    actions = declarative_actions;
  }
