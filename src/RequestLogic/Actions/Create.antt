-- ===== src/RequestLogic/Actions/Create.antt =====
-- packages/request-logic/src/actions/create.ts.
use request_network.Base.{
  ℕ, zero, suc, not, ◌&&◌, true, false, String, Option, none, some, [], ◌∷◌, Result, ok, err, ◌>>=◌,
  ◌>>◌, throw_if, is_some, append, str_eq, if◌then◌else◌, Bool,
}
use request_network.Types.{
  Identity, Amount, text, whole, fractional, CurrencyType, CurrencyParameter, currency, legacy,
  ActionName, RequestState, Role, ActionParameters, UnsignedAction, Action, Event, Request,
}
use request_network.Base.Int.{pos, negsuc}
use request_network.Amount.{is_string, is_valid_amount}
use request_network.Amount.Print.{print}
use request_network.Identity.{identity_has_error}
use request_network.RequestLogic.Library.{Library}
use request_network.RequestLogic.Role.{get_role_in_unsigned_action}
use request_network.RequestLogic.Version.{specification_version}
use request_network.RequestLogic.Action.{
  SignatureProvider, create_action, get_signer_identity_from_action, get_request_id,
  get_role_in_action, get_version_from_action,
}
use request_network.RequestLogic.Actions.Common.{extensions_data_length}

-- `if (identity && identityHasError(identity)) throw …`
unfoldable pub throw_on_error : String → Option Identity → Result (Unit {0})
unfolding identity_has_error
throw_on_error label none = ok tt
throw_on_error label (some id) = elim (identity_has_error id) [
  | none ↦ ok tt
  | some e ↦ err (append label (append e "̀"))
]

-- `amount.toString()`
unfoldable pub amount_to_string : Amount → Amount
amount_to_string (whole (pos n)) = text (print n)
amount_to_string (whole (negsuc n)) = text (append "-" (print (suc n)))
amount_to_string (fractional s) = text s
amount_to_string (text s) = text s

-- `!isValidAmount(amount)`, and the amount where it is valid.
unfoldable pub valid_or_throw : Option Amount → String → Result Amount
unfolding is_valid_amount
valid_or_throw none e = err e
valid_or_throw (some a) e = if is_valid_amount a then ok a else err e

abbrev pub or_now : ℕ → Option ℕ → ℕ
or_now now none = now
or_now now (some zero) = now
or_now now (some (suc t)) = suc t

abbrev pub is_stakeholder : Role → Bool
is_stakeholder Role.third_party = false
is_stakeholder _ = true

-- `format`; `now` is the current timestamp in seconds.
unfoldable pub format_create : ℕ → ActionParameters → Identity → SignatureProvider → Result Action
unfolding create_action throw_on_error valid_or_throw amount_to_string get_role_in_unsigned_action
format_create now parameters signer provider = do
  throw_if (not (is_some parameters.payee) && not (is_some parameters.payer))
      "payee or PayerId must be given"
  amount ← valid_or_throw parameters.expected_amount "expectedAmount must be a positive integer"
  throw_on_error "payee: " parameters.payee
  throw_on_error "payer: " parameters.payer
  let unsigned : UnsignedAction = record {
    name = ActionName.create;
    version = specification_version.current;
    parameters = record parameters {
      timestamp = some (or_now now parameters.timestamp);
      expected_amount = some (amount_to_string amount);
    };
  }
  throw_if (not (is_stakeholder (get_role_in_unsigned_action signer unsigned)))
      "Signer must be the payee or the payer"
  create_action provider unsigned signer

-- `!isString(amount) || !isValidAmount(amount)`
unfoldable pub valid_text_or_throw : Option Amount → String → Result Amount
unfolding is_valid_amount
valid_text_or_throw none e = err e
valid_text_or_throw (some a) e = if is_string a && is_valid_amount a then ok a else err e

unfoldable pub generate_create_event : Action → ℕ → Identity → Event
generate_create_event action timestamp signer = record {
  name = ActionName.create;
  action_signer = signer;
  parameters = record {
    expected_amount = action.content.parameters.expected_amount;
    delta_amount = none;
    extensions_data_length = extensions_data_length action.content.parameters;
    is_signed_request = some false;
  };
  timestamp = timestamp;
}

abbrev unsupported_currency : String
unsupported_currency = "Unsupported currency when getting request from transactions."

-- `legacyEnumToICurrencyConvert`
unfoldable pub legacy_enum_to_currency : Option CurrencyParameter → Result CurrencyParameter
legacy_enum_to_currency (some (legacy name)) =
    if str_eq name "BTC"
    then ok (currency (record { type = CurrencyType.btc; value = "BTC"; network = some "mainnet" }))
    else if str_eq name "ETH"
    then ok (currency (record { type = CurrencyType.eth; value = "ETH"; network = some "mainnet" }))
    else if str_eq name "EUR"
    then ok (currency (record { type = CurrencyType.iso4217; value = "EUR"; network = none }))
    else if str_eq name "USD"
    then ok (currency (record { type = CurrencyType.iso4217; value = "USD"; network = none }))
    else if str_eq name "DAI"
    then ok (
        currency (record {
          type = CurrencyType.erc20;
          value = "0x89d24A6b4CcB1B6fAA2625fE562bDD9a23260359";
          network = none;
        }))
    else err unsupported_currency
legacy_enum_to_currency _ = err unsupported_currency

-- The request, by the role of the signer.
unfoldable pub open_request :
    Action → ℕ → Identity → Amount → String → Option CurrencyParameter → Result Request
unfolding generate_create_event get_version_from_action get_role_in_action
open_request action timestamp signer amount request_id new_currency =
    let p : ActionParameters = action.content.parameters in
    let request : Option Identity → RequestState → Request = λ creator state. record {
      version = get_version_from_action action;
      request_id = request_id;
      creator = creator;
      currency = new_currency;
      state = state;
      expected_amount = amount;
      payee = p.payee;
      payer = p.payer;
      extensions = [];
      extensions_data = p.extensions_data;
      events = generate_create_event action timestamp signer ∷ [];
      timestamp = p.timestamp;
      nonce = p.nonce;
    } in
    elim (get_role_in_action signer action) [
      | Role.payee ↦ ok (request p.payee RequestState.created)
      | Role.payer ↦ ok (request p.payer RequestState.accepted)
      | Role.third_party ↦ err "Signer must be the payee or the payer"
    ]

module _ {N : Type 0} (lib : Library N) where
  -- Before version 2.0.2 the currency is converted.
  unfoldable pub creation_currency : Action → Result (Option CurrencyParameter)
  unfolding legacy_enum_to_currency
  creation_currency action =
      if lib.semver_lt action.content.version "2.0.2"
      then (legacy_enum_to_currency action.content.parameters.currency >>= λ c. ok (some c))
      else ok action.content.parameters.currency

  unfoldable pub create_request : Action → ℕ → Result Request
  unfolding throw_on_error valid_text_or_throw creation_currency open_request
  create_request action timestamp = do
    let p = action.content.parameters
    throw_if (not (is_some p.payee) && not (is_some p.payer))
        "action.parameters.payee or action.parameters.payer must be given"
    throw_on_error "payee: " p.payee
    throw_on_error "payer: " p.payer
    amount ←
        valid_text_or_throw p.expected_amount
          "action.parameters.expectedAmount must be a string representing a positive integer"
    signer ← get_signer_identity_from_action lib action
    request_id ← get_request_id lib action
    new_currency ← creation_currency action
    open_request action timestamp signer amount request_id new_currency
