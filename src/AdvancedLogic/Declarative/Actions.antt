-- ===== src/AdvancedLogic/Declarative/Actions.antt =====
-- The actions that a client makes for a declarative payment network
-- (packages/advanced-logic/src/extensions/payment-network/declarative.ts).
use request_network.Base.{String, Option, none, some}
use request_network.Types.{Identity, Amount, Json, no_values, ExtensionAction}
use request_network.RequestLogic.Actions.Create.{amount_to_string}

-- `ISentParameters` and `IReceivedParameters`
pub record DeclareParameters : Type 0 where
  pub amount : Amount
  pub note : String
  pub tx_hash : Option String
  pub network : Option String

unfoldable pub declare_action : String → String → DeclareParameters → ExtensionAction
unfolding amount_to_string
declare_action extension_id name p = record {
  action = name;
  id = extension_id;
  parameters = some (record no_values {
    amount = some (amount_to_string p.amount);
    note = some p.note;
    tx_hash = p.tx_hash;
    network = p.network;
  });
  version = none;
}

unfoldable pub create_declare_sent_payment_action : String → DeclareParameters → ExtensionAction
unfolding declare_action
create_declare_sent_payment_action id = declare_action id "declareSentPayment"

unfoldable pub create_declare_sent_refund_action : String → DeclareParameters → ExtensionAction
unfolding declare_action
create_declare_sent_refund_action id = declare_action id "declareSentRefund"

unfoldable pub create_declare_received_payment_action : String → DeclareParameters → ExtensionAction
unfolding declare_action
create_declare_received_payment_action id = declare_action id "declareReceivedPayment"

unfoldable pub create_declare_received_refund_action : String → DeclareParameters → ExtensionAction
unfolding declare_action
create_declare_received_refund_action id = declare_action id "declareReceivedRefund"

unfoldable pub create_add_payment_instruction_action : String → Option Json → ExtensionAction
create_add_payment_instruction_action id info = record {
  action = "addPaymentInstruction";
  id = id;
  parameters = some (record no_values { payment_info = info });
  version = none;
}

unfoldable pub create_add_refund_instruction_action : String → Option Json → ExtensionAction
create_add_refund_instruction_action id info = record {
  action = "addRefundInstruction";
  id = id;
  parameters = some (record no_values { refund_info = info });
  version = none;
}

unfoldable pub create_add_delegate_action : String → Option Identity → ExtensionAction
create_add_delegate_action id delegate = record {
  action = "addDelegate";
  id = id;
  parameters = some (record no_values { delegate = delegate });
  version = none;
}
