-- ===== src/Types/Extensions.antt =====
-- Actions, events and states of extensions (packages/types/src/extension-types.ts and the
-- parameters and values of packages/types/src/extensions/).
use request_network.Base.{ℕ, String, Option, List, Dict}
use request_network.Types.Primitives.{Identity, Amount, Json}

-- `ExtensionTypes.TYPE`
pub data ExtensionType : Type 0 where
  content_data payment_network : ExtensionType

-- The properties of the `parameters` of an extension action, of the `parameters` of an extension
-- event, and of the `values` of an extension state.
pub record ExtensionValues : Type 0 where
  pub payment_info : Option Json
  pub refund_info : Option Json
  pub payee_delegate : Option Identity
  pub payer_delegate : Option Identity
  pub delegate : Option Identity
  pub amount : Option Amount
  pub note : Option String
  pub tx_hash : Option String
  pub network : Option String
  pub salt : Option String
  pub payment_address : Option String
  pub refund_address : Option String
  pub fee_address : Option String
  pub fee_amount : Option Amount
  pub content : Option Json
  pub received_payment_amount : Option Amount
  pub received_refund_amount : Option Amount
  pub sent_payment_amount : Option Amount
  pub sent_refund_amount : Option Amount

-- `{}`
abbrev pub no_values : ExtensionValues
no_values = record {
  payment_info = Option.none;
  refund_info = Option.none;
  payee_delegate = Option.none;
  payer_delegate = Option.none;
  delegate = Option.none;
  amount = Option.none;
  note = Option.none;
  tx_hash = Option.none;
  network = Option.none;
  salt = Option.none;
  payment_address = Option.none;
  refund_address = Option.none;
  fee_address = Option.none;
  fee_amount = Option.none;
  content = Option.none;
  received_payment_amount = Option.none;
  received_refund_amount = Option.none;
  sent_payment_amount = Option.none;
  sent_refund_amount = Option.none;
}

-- `ExtensionTypes.IAction`
pub record ExtensionAction : Type 0 where
  pub action : String
  pub id : String
  pub parameters : Option ExtensionValues
  pub version : Option String

-- `ExtensionTypes.IEvent`
pub record ExtensionEvent : Type 0 where
  pub name : String
  pub parameters : ExtensionValues
  pub timestamp : ℕ
  pub sender : Option Identity

-- `ExtensionTypes.IState`
pub record ExtensionState : Type 0 where
  pub type : ExtensionType
  pub id : String
  pub version : String
  pub events : List ExtensionEvent
  pub values : ExtensionValues

-- `RequestLogicTypes.IExtensionStates`
abbrev pub ExtensionStates : Type 0
ExtensionStates = Dict ExtensionState
