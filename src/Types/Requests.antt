-- ===== src/Types/Requests.antt =====
-- Requests and the actions on them (packages/types/src/request-logic-types.ts and
-- signature-types.ts).
use request_network.Base.{ℕ, String, Bool, Option, List}
use request_network.Types.Primitives.{Identity, Amount, CurrencyParameter}
use request_network.Types.Extensions.{ExtensionAction, ExtensionStates}

-- `RequestLogicTypes.ACTION_NAME`
pub data ActionName : Type 0 where
  create broadcast accept cancel reduce_expected_amount increase_expected_amount : ActionName
  add_stakeholders add_extensions_data : ActionName

-- `RequestLogicTypes.STATE`
pub data RequestState : Type 0 where
  pending created accepted canceled : RequestState

-- `RequestLogicTypes.ROLE`
pub data Role : Type 0 where
  payee payer third_party : Role

-- The `parameters` of an action: the properties of every `I…Parameters`.
pub record ActionParameters : Type 0 where
  pub request_id : Option String
  pub payee : Option Identity
  pub payer : Option Identity
  pub currency : Option CurrencyParameter
  pub expected_amount : Option Amount
  pub delta_amount : Option Amount
  pub extensions_data : Option (List ExtensionAction)
  pub timestamp : Option ℕ
  pub nonce : Option ℕ

-- `IUnsignedAction`
pub record UnsignedAction : Type 0 where
  pub name : ActionName
  pub version : String
  pub parameters : ActionParameters

-- `SignatureTypes.METHOD`; `unsupported` is any other text.
pub data SignatureMethod : Type 0 where
  ecdsa ecdsa_ethereum : SignatureMethod
  unsupported : String → SignatureMethod

pub record Signature : Type 0 where
  pub method : SignatureMethod
  pub value : String

-- `IAction`; the property `data` of the source is `content` here.
pub record Action : Type 0 where
  pub content : UnsignedAction
  pub signature : Signature

-- The `parameters` of an event.
pub record EventParameters : Type 0 where
  pub expected_amount : Option Amount
  pub delta_amount : Option Amount
  pub extensions_data_length : ℕ
  pub is_signed_request : Option Bool

-- `IEvent`
pub record Event : Type 0 where
  pub name : ActionName
  pub action_signer : Identity
  pub parameters : EventParameters
  pub timestamp : ℕ

-- `IRequest`. It starts as a copy of the parameters of the creation, so what these may leave out
-- may be missing here too; `state` and `expected_amount` are always set.
pub record Request : Type 0 where
  pub version : String
  pub request_id : String
  pub creator : Option Identity
  pub currency : Option CurrencyParameter
  pub state : RequestState
  pub expected_amount : Amount
  pub payee : Option Identity
  pub payer : Option Identity
  pub extensions : ExtensionStates
  pub extensions_data : Option (List ExtensionAction)
  pub events : List Event
  pub timestamp : Option ℕ
  pub nonce : Option ℕ

-- `TransactionTypes.TransactionState`; `unknown` is any other text.
pub data TransactionState : Type 0 where
  pending confirmed : TransactionState
  unknown : String → TransactionState

-- `IConfirmedAction`
pub record ConfirmedAction : Type 0 where
  pub state : TransactionState
  pub action : Action
  pub timestamp : ℕ

-- `IIgnoredTransaction`
pub record IgnoredTransaction : Type 0 where
  pub transaction : ConfirmedAction
  pub reason : String
