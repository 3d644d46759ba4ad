-- ===== src/RequestLogic/Tests/Reading.antt =====
-- The theorems on signatures, on formatting and on the reading of transactions.
use request_network.Base.{
  ◌≡◌, ◌≢◌, inl, refl, String, append, ok, err, Option, some, none, List, [], ◌∷◌, ◌++◌, ◌+◌,
  length, ap, arith, filter, map, All,
}
use request_network.Types.{
  Identity, ethereum_address, ethereum_smart_contract, ecdsa, Amount, whole, ecdsa_ethereum,
  ActionParameters, Action, Request, TransactionState, ConfirmedAction,
}
use request_network.Amount.Decimal.{amount_value}
use request_network.Base.{not, ◌++◌, map}
use request_network.Base.Int.{pos}
use request_network.Amount.Print.{print}
use request_network.Crypto.{recover_signer}
use request_network.Crypto.Laws.{recover_signer_v}
use request_network.RequestLogic.Action.{SignatureProvider, get_signer_identity_from_action}
use request_network.RequestLogic.Actions.Create.{create_request, format_create}
use request_network.RequestLogic.Core.{apply_action_to_request}
use request_network.RequestLogic.Refusals.{apply_action_to_request-foreign}
use request_network.RequestLogic.Formatting.{IsHonest, create_request-format_create}
use request_network.RequestLogic.Replay.{
  compute_request_from_request_id, Transaction, remove_old_pending_transactions, not_null,
  unique_from, includes, is_confirmed, is_pending, reverse,
}
use request_network.RequestLogic.Replay.Everything.{Accounts, compute_request_from_request_id_lem}
use request_network.RequestLogic.Replay.Pending.{
  Ends, Unconfirmed, superseded, remove_old_pending_transactions_lem,
}
use request_network.RequestLogic.Replay.Duplicates.{Fresh, unique_from_lem}
use request_network.AdvancedLogic.Extension.Laws.{ok-inj}
use request_network.RequestLogic.Tests.{
  logic, library, crypto, alice, bob, identity, no_parameters, creation, acceptance, opened,
  confirmed,
}

abbrev ending : String → Action
ending v = record {
  content = creation.content;
  signature = record { method = ecdsa_ethereum; value = append "0xab" v };
}

recover_signer_v_example : recover_signer crypto (ending "00") ≡ recover_signer crypto (ending "01")
recover_signer_v_example = recover_signer_v crypto (ending "00") (ending "01") "0xab" refl refl refl

abbrev contract : Identity
contract = record {
  type = ethereum_smart_contract;
  value = "0xcccccccccccccccccccccccccccccccccccccccc";
}

abbrev to_contract : Request
to_contract = record opened { payee = some contract }

distinct : ethereum_smart_contract ≢ ethereum_address
distinct = ground arith

apply_action_to_request-foreign_example :
    (e : String) × (apply_action_to_request library none (some to_contract) acceptance 9 ≡ err e)
apply_action_to_request-foreign_example =
    apply_action_to_request-foreign library none acceptance 9 to_contract
      (contract, distinct, inl refl)

-- A provider that signs with the address of the signer.
abbrev pub provider : SignatureProvider
provider content signer = ok (record {
  content = content;
  signature = record { method = ecdsa; value = append signer.value "1b" };
})

abbrev pub asked : ActionParameters
asked = record no_parameters {
  payee = some (identity alice);
  payer = some (identity bob);
  expected_amount = some (whole (pos 1000));
}

abbrev signed : Action
signed = elim (format_create 7 asked (identity alice) provider) [ ok a ↦ a | err e ↦ creation ]

provider-IsHonest : IsHonest library provider (identity alice)
unfolding logic
provider-IsHonest = record {
  content = λ c a h. ap (λ (x : Action). x.content) (ok-inj h);
  recovered = λ c a h. ap (get_signer_identity_from_action library) (ok-inj h);
}

create_request-format_create_example :
    (r : Request) × (create_request library signed 9 ≡ ok r)
    × (r.payee ≡ some (identity alice))
    × (r.payer ≡ some (identity bob))
    × ((amount : Amount) × (asked.expected_amount ≡ some amount)
        × (amount_value r.expected_amount ≡ amount_value amount))
unfolding logic format_create print
create_request-format_create_example =
    create_request-format_create library provider 7 9 asked (identity alice) signed
      "010123456789abcdef0123456789abcdef0123456789abcdef0123456789abcdef" provider-IsHonest refl
      refl refl

abbrev transactions : List (Option Transaction)
transactions =
    some (record { state = TransactionState.pending; contents = none; timestamp = 1 })
    ∷ some (record { state = TransactionState.confirmed; contents = none; timestamp = 2 })
    ∷ none
    ∷ some (record { state = TransactionState.pending; contents = none; timestamp = 3 })
    ∷ []

remove_old_pending_transactions_example :
    let (ignored, kept) = remove_old_pending_transactions transactions in
    (old new : List Transaction) × ((not_null transactions ≡ old ++ new)
      × Ends old
      × All Unconfirmed new
      × (kept ≡ filter (λ t. is_confirmed t.state) old ++ filter (λ t. is_pending t.state) new)
      × (ignored
          ≡ map superseded (
              reverse (
                filter (λ t. not (is_confirmed t.state)) old
                ++ filter (λ t. not (is_pending t.state)) new))))
remove_old_pending_transactions_example = remove_old_pending_transactions_lem transactions

abbrev hash : ConfirmedAction → String
hash c = c.action.signature.value

unique_from_example :
    let l = confirmed creation ∷ confirmed acceptance ∷ confirmed creation ∷ [] in
    let (items, duplicates) = unique_from hash [] l in
    Fresh hash [] items
    × ((h : String) → includes (map hash items) h ≡ includes (map hash l) h)
    × (length items + length duplicates ≡ length l)
unique_from_example =
    unique_from_lem hash (confirmed creation ∷ confirmed acceptance ∷ confirmed creation ∷ [])

-- A channel on which every transaction reads as the creation.
compute_request_from_request_id_example :
    Accounts library none
      (λ s. some creation)
      transactions
      (compute_request_from_request_id library none (λ s. some creation) transactions)
compute_request_from_request_id_example =
    compute_request_from_request_id_lem library none (λ s. some creation) transactions
