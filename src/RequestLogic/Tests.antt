-- ===== src/RequestLogic/Tests.antt =====
-- A library to run the request logic with, a request through its life, and the theorems at it.
mod Reading
mod Methods
use request_network.Base.{
  first_two, str_length, but_last_two, drop_two, last_two, lower, String, true, false, Option, none,
  some, List, [], ◌∷◌, ◌++◌, ◌≡◌, refl, append, str_eq, ok, err, ◌⊎◌, ◌≢◌, arith, length, ◌+◌,
}
use request_network.Base.Int.{ℤ, ◌+ℤ◌, ◌-ℤ◌}
use request_network.Types.{
  IgnoredTransaction, Identity, ethereum_address, Amount, text, CurrencyType, currency, ActionName,
  RequestState, ActionParameters, ecdsa, Action, Request, TransactionState, ConfirmedAction, Event,
}
use request_network.Amount.Instance.{integers, integers-IsBigNumber}
use request_network.RequestLogic.Role.{get_role_in_request}
use request_network.RequestLogic.Effect.{Allowed, Effect}
use request_network.RequestLogic.Effect.Updates.{update_request-Effect}
use request_network.RequestLogic.Enabled.{apply-CanDo}
use request_network.Amount.Decimal.{amount_value}
use request_network.RequestLogic.Lifecycle.{apply-Allowed, apply_canceled}
use request_network.RequestLogic.Amounts.{IsSourced, apply-IsSourced, log_amount}
use request_network.RequestLogic.Replay.Accounting.{Runs, events_of, compute_accounting}
use request_network.Crypto.{
  recover_signer, normalize_keccak256_hash_signed, CryptoLibrary, returned,
}
use request_network.MultiFormat
use request_network.RequestLogic.Library.{Library}
use request_network.RequestLogic.Core.{apply_action_to_request}
use request_network.RequestLogic.Action.{
  is_action_version_supported, get_signer_identity_from_action, get_request_id,
}
use request_network.RequestLogic.Version.{is_supported}
use request_network.RequestLogic.Actions.Create.{create_request, generate_create_event}
use request_network.Identity.{are_equal_identities, identity_has_error}
use request_network.RequestLogic.Checks.{check_request}
use request_network.RequestLogic.Actions.Accept.{apply_accept}
use request_network.RequestLogic.Actions.Cancel.{apply_cancel}
use request_network.RequestLogic.Actions.ReduceExpectedAmount.{apply_reduce_expected_amount}
use request_network.RequestLogic.Actions.IncreaseExpectedAmount.{apply_increase_expected_amount}
use request_network.RequestLogic.Actions.AddStakeholders.{apply_add_stakeholders}
use request_network.RequestLogic.Actions.AddExtensionsData.{apply_add_extensions_data}
use request_network.RequestLogic.Replay.{replay, compute_request_from_transactions}

-- The signature of a test holds the address of its signer.
abbrev crypto : CryptoLibrary
crypto = record {
  sorted_json = λ content. content.version;
  sorted_json_signed = λ action. action.signature.value;
  keccak256 = λ s. "0x0123456789abcdef0123456789abcdef0123456789abcdef0123456789abcdef";
  hash_message = λ s. s;
  recover_address = λ signature v digest. returned (append "0x" signature);
}

abbrev library : Library ℤ
library = record {
  big = integers;
  crypto = crypto;
  semver_valid = λ v. true;
  semver_diff = λ v w. none;
  semver_lt = λ v w. false;
  semver_lte = str_eq;
}

abbrev address : String → String
address s = append "0x" s

abbrev alice : String
alice = "aaaaaaaaaaaaaaaaaaaaaaaaaaaaaaaaaaaaaaaa"

abbrev bob : String
bob = "bbbbbbbbbbbbbbbbbbbbbbbbbbbbbbbbbbbbbbbb"

abbrev identity : String → Identity
identity s = record { type = ethereum_address; value = address s }

abbrev no_parameters : ActionParameters
no_parameters = record {
  request_id = none;
  payee = none;
  payer = none;
  currency = none;
  expected_amount = none;
  delta_amount = none;
  extensions_data = none;
  timestamp = none;
  nonce = none;
}

abbrev signed_by : String → ActionName → ActionParameters → Action
signed_by signer name parameters = record {
  content = record { name = name; version = "2.0.3"; parameters = parameters };
  signature = record { method = ecdsa; value = append "0x" (append signer "1b") };
}

-- Alice asks Bob for 1000; Bob accepts, adds 50, and Alice takes off 100 and cancels.
abbrev creation : Action
creation = signed_by alice ActionName.create (record no_parameters {
  payee = some (identity alice);
  payer = some (identity bob);
  currency =
      some (currency (record { type = CurrencyType.iso4217; value = "EUR"; network = none }));
  expected_amount = some (text "1000");
  timestamp = some 7;
})

abbrev of_request : ActionParameters
of_request = record no_parameters { request_id = some "01ab" }

abbrev acceptance : Action
acceptance = signed_by bob ActionName.accept of_request

abbrev increase : Action
increase =
    signed_by bob ActionName.increase_expected_amount
      (record of_request { delta_amount = some (text "50") })

abbrev reduction : Action
reduction =
    signed_by alice ActionName.reduce_expected_amount
      (record of_request { delta_amount = some (text "100") })

abbrev cancellation : Action
cancellation = signed_by alice ActionName.cancel of_request

abbrev confirmed : Action → ConfirmedAction
confirmed a = record { state = TransactionState.confirmed; action = a; timestamp = 9 }

abbrev created_request : Option Request
created_request = (replay library none none (confirmed creation ∷ [])).0

abbrev state_and_amount : Option Request → Option (RequestState × Amount)
state_and_amount none = none
state_and_amount (some r) = some (r.state, r.expected_amount)

logic : Unit {0}
unfolding replay apply_action_to_request integers MultiFormat.serialize is_action_version_supported
    is_supported create_request get_signer_identity_from_action recover_signer get_request_id
    MultiFormat.is_serializable_object normalize_keccak256_hash_signed first_two str_length
    MultiFormat.serialize_format are_equal_identities but_last_two drop_two check_request
    apply_accept apply_cancel apply_reduce_expected_amount apply_increase_expected_amount
    apply_add_stakeholders apply_add_extensions_data last_two lower identity_has_error ◌+ℤ◌ ◌-ℤ◌
logic = tt

life :
    state_and_amount
      (replay library none none (
        confirmed creation
        ∷ confirmed acceptance
        ∷ confirmed increase
        ∷ confirmed acceptance
        ∷ confirmed reduction
        ∷ [])).0
    ≡ some (RequestState.accepted, text "950")
unfolding logic
life = refl

-- What an action makes of a request; the request itself if the action is refused.
abbrev after : Request → Action → Request
after r a = elim (apply_action_to_request library none (some r) a 9) [ ok r' ↦ r' | err e ↦ r ]

-- The request that `creation` opens.
abbrev opened : Request
opened = record {
  version = "2.0.3";
  request_id = "010123456789abcdef0123456789abcdef0123456789abcdef0123456789abcdef";
  creator = some (identity alice);
  currency =
      some (currency (record { type = CurrencyType.iso4217; value = "EUR"; network = none }));
  state = RequestState.created;
  expected_amount = text "1000";
  payee = some (identity alice);
  payer = some (identity bob);
  extensions = [];
  extensions_data = none;
  events = generate_create_event creation 9 (identity alice) ∷ [];
  timestamp = some 7;
  nonce = none;
}

opened_lem : apply_action_to_request library none none creation 9 ≡ ok opened
unfolding logic
opened_lem = refl

-- Other actions of Alice and Bob.
abbrev more_stakeholders : Action
more_stakeholders = signed_by bob ActionName.add_stakeholders of_request

abbrev canceled : Request
canceled = record opened { state = RequestState.canceled }

apply-Allowed_example :
    (signer : Identity) × (get_signer_identity_from_action library acceptance ≡ ok signer)
    × Allowed ActionName.accept
        (get_role_in_request signer opened)
        RequestState.created
        RequestState.accepted
unfolding logic
apply-Allowed_example =
    apply-Allowed library none acceptance 9 opened {r' = after opened acceptance} refl

apply_canceled_example :
    ((after canceled more_stakeholders).state ≡ RequestState.canceled)
    × ((after canceled more_stakeholders).expected_amount ≡ text "1000")
    × ((ActionName.add_stakeholders ≡ ActionName.add_stakeholders)
        ⊎ (ActionName.add_stakeholders ≡ ActionName.add_extensions_data))
unfolding logic
apply_canceled_example =
    apply_canceled library none more_stakeholders 9 canceled {r' = after canceled more_stakeholders}
      refl refl

opened-IsSourced : IsSourced opened
unfolding logic log_amount
opened-IsSourced = record { valid = refl; is_text = refl; logged = refl }

apply-IsSourced_example : IsSourced (after opened increase)
unfolding logic
apply-IsSourced_example =
    apply-IsSourced library integers-IsBigNumber none increase 9 {r' = after opened increase}
      (some opened) opened-IsSourced refl

update_request-Effect_example : Effect library reduction 9 opened (after opened reduction)
unfolding logic
update_request-Effect_example =
    update_request-Effect library reduction 9 opened {r' = after opened reduction} refl

compute_accounting_example :
    let l = confirmed creation ∷ confirmed acceptance ∷ confirmed acceptance ∷ [] in
    let result = compute_request_from_transactions library none l in
    (old new : List Event) × ((first second : List IgnoredTransaction) × Runs library none none l
        result.confirmed old first
      × Runs library none result.confirmed [] result.pending new second
      × (result.ignored ≡ first ++ second)
      × (events_of result.confirmed ≡ old)
      × (events_of result.pending ≡ events_of result.confirmed ++ new)
      × (length (events_of result.pending) + length result.ignored ≡ 3))
unfolding logic
compute_accounting_example =
    compute_accounting library none
      (confirmed creation ∷ confirmed acceptance ∷ confirmed acceptance ∷ [])

distinct : RequestState.created ≢ RequestState.canceled
distinct = ground arith

apply-CanDo_example :
    (r' : Request) × (apply_action_to_request library none (some opened) reduction 9 ≡ ok r')
unfolding logic amount_value
apply-CanDo_example =
    apply-CanDo library integers-IsBigNumber reduction 9 opened (identity alice) refl refl refl refl
      refl (refl, distinct, (text "100", refl, refl, refl, omega arith))
