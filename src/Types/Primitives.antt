-- ===== src/Types/Primitives.antt =====
-- Identities, amounts, currencies and untyped JSON values
-- (packages/types/src/identity-types.ts, request-logic-types.ts).
use request_network.Base.{zero, suc, String, Bool, true, false, Option, none, some, truthy}
use request_network.Base.Int.{ℤ, pos, negsuc}

-- `IdentityTypes.TYPE`; `other` is any other text that a JSON object may hold there.
pub data IdentityType : Type 0 where
  ethereum_address ethereum_smart_contract : IdentityType
  other : String → IdentityType

pub record Identity : Type 0 where
  pub type : IdentityType
  pub value : String

-- `RequestLogicTypes.Amount`, a text or a JavaScript number; `fractional` is a number that is
-- not an integer, by the text that `toString` gives.
pub data Amount : Type 0 where
  text : String → Amount
  whole : ℤ → Amount
  fractional : String → Amount

abbrev pub truthy_amount : Amount → Bool
truthy_amount (text s) = truthy s
truthy_amount (whole (pos zero)) = false
truthy_amount (whole (pos (suc n))) = true
truthy_amount (whole (negsuc n)) = true
truthy_amount (fractional s) = true

-- The truth value of an amount that may be undefined.
abbrev pub given_amount : Option Amount → Bool
given_amount none = false
given_amount (some a) = truthy_amount a

-- A value of type `any`: `composite` is an object or an array, kept as its text.
pub data Json : Type 0 where
  null : Json
  boolean : Bool → Json
  scalar : Amount → Json
  composite : String → Json

abbrev pub given_json : Option Json → Bool
given_json none = false
given_json (some null) = false
given_json (some (boolean b)) = b
given_json (some (scalar a)) = truthy_amount a
given_json (some (composite s)) = true

pub data CurrencyType : Type 0 where
  eth btc iso4217 erc20 erc777 : CurrencyType

pub record Currency : Type 0 where
  pub type : CurrencyType
  pub value : String
  pub network : Option String

-- Before version 2.0.2 the currency of an action was a text.
pub data CurrencyParameter : Type 0 where
  legacy : String → CurrencyParameter
  currency : Currency → CurrencyParameter

abbrev pub given_currency : Option CurrencyParameter → Bool
given_currency none = false
given_currency (some (legacy s)) = truthy s
given_currency (some (currency c)) = true
