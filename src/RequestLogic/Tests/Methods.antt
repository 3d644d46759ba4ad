-- ===== src/RequestLogic/Tests/Methods.antt =====
-- The public methods on the transaction manager and on a data access that is a dictionary.
use Prim.Native.Char.{Char}
use request_network.Base.{
  ◌≡◌, inl, refl, String, ok, err, some, none, [], ◌∷◌, str_eq, if◌then◌else◌, lookup, insert,
}
use request_network.Base.Int.{ℤ}
use request_network.Types.{
  Action, ActionParameters, Request, TransactionState, ActionName, currency, CurrencyType,
}
use request_network.Amount.Print.{print}
use request_network.Encryption.Instance.{plain_library}
use request_network.TransactionManager.{Environment, TimestampedTransaction}
use request_network.TransactionManager.Factory.{clear_persisted, create_clear_transaction}
use request_network.TransactionManager.Transactions.{hash_of, get_data, get_hash, get_error}
use request_network.TransactionManager.Parser.{parse_persisted_transaction}
use request_network.TransactionManager.Channels.{decrypt_and_clean_channel}
use request_network.TransactionManager.Manager.{persist_transaction, get_transactions_by_channel_id}
use request_network.TransactionManager.Instance.{stamped, Store, channel_of, dictionary_access}
use request_network.RequestLogic.Action.{SignatureProvider}
use request_network.RequestLogic.Actions.Accept.{format_accept}
use request_network.RequestLogic.Actions.Create.{format_create}
use request_network.RequestLogic.Core.{apply_action_to_request, get_request_id_from_action}
use request_network.RequestLogic.Replay.{Computed, compute_request_from_request_id}
use request_network.RequestLogic.Methods.{
  JsonLibrary, RequestLogic, interpret, validate_action, persist_update, persist_action,
  create_clear_request,
}
use request_network.RequestLogic.Methods.Validation.{
  IsValidated, persist_update-IsValidated, persist_update-missing,
}
use request_network.RequestLogic.Methods.Single.{interpretation}
use request_network.RequestLogic.Methods.EndToEnd.{connected}
use request_network.RequestLogic.Methods.Stored.{
  client as client_of, interpret-create_clear_request,
}
use request_network.Base.{ℕ, suc, true, false}
use request_network.DataAccess.Block.{Block, push_transaction, create_empty_block, add_topics}
use request_network.DataAccess.Indexer.{Entry, ContentState}
use request_network.DataAccess.Access.{Storage, combined_data_access}
use request_network.DataAccess.Pending.{PendingItem, write_transaction, add_pending}
use request_network.DataAccess.Pending.Laws.{pending_item}
use request_network.RequestLogic.Tests.{
  logic, library, identity, alice, bob, acceptance, of_request, opened,
}
use request_network.RequestLogic.Tests.Reading.{provider, asked}

abbrev id : String
id = "010123456789abcdef0123456789abcdef0123456789abcdef0123456789abcdef"

abbrev environment : Environment Char
environment = record {
  encryption = plain_library;
  sorted_json = λ s. if str_eq s "" then err "Unexpected end of JSON input" else ok s;
  keccak256 = λ s. "0x0123456789abcdef0123456789abcdef0123456789abcdef0123456789abcdef";
}

abbrev requested : ActionParameters
requested = record asked {
  currency =
      some (currency (record { type = CurrencyType.iso4217; value = "EUR"; network = none }));
}

abbrev formatted : Action
formatted = elim (format_create 0 requested (identity alice) provider) [
  | ok a ↦ a
  | err e ↦ acceptance
]

-- A creation is written as one text, and any other action as another.
abbrev json : JsonLibrary
json = record {
  stringify = λ a. elim a.content.name [ ActionName.create ↦ "creation" | _ ↦ "update" ];
  parse = λ s. some formatted;
  sorted_topic = λ s. s;
}

abbrev client : RequestLogic ℤ Store
client = connected environment none dictionary_access library json provider none

abbrev made_at : ℕ → Request
made_at time = elim (apply_action_to_request library none none formatted time) [
  | ok r ↦ r
  | err e ↦ opened
]

abbrev accepting : ActionParameters
accepting = record of_request { request_id = some id }

abbrev accepted_by : String → Action
accepted_by name = elim (format_accept accepting (identity name) provider) [
  | ok a ↦ a
  | err e ↦ acceptance
]

methods : Unit {0}
unfolding logic format_create print create_clear_request persist_transaction
    get_transactions_by_channel_id decrypt_and_clean_channel hash_of channel_of lookup insert
    parse_persisted_transaction get_data get_hash get_error persist_update validate_action
    get_request_id_from_action create_clear_transaction compute_request_from_request_id
    format_accept
methods = tt

abbrev transaction : TimestampedTransaction
transaction = stamped (clear_persisted "creation")

abbrev created : Store
created = (id, transaction ∷ []) ∷ []

-- A storage that its index has not read yet.
abbrev entry : Entry
entry = record {
  id = "place";
  meta = record {
    state = ContentState.pending;
    timestamp = 5;
    block_number = none;
    block_timestamp = none;
    smart_contract_address = none;
    transaction_hash = none;
    size = none;
  };
  contents = "block";
}

abbrev storage : Storage ℕ
storage = record {
  append = λ s text. ok (suc s, entry);
  by_location = λ s place. ok [];
  by_channel = λ s channel. ok [];
}

abbrev text_of : Block → String
text_of b = "block"

abbrev item : PendingItem
item = pending_item (clear_persisted "creation") (id ∷ []) entry

interpret-create_clear_request_example :
    interpret
      (client_of environment none storage text_of library json provider none)
      (1, (id, item) ∷ [])
      id
    ≡ ok (interpretation library none json.parse TransactionState.pending (made_at 5))
unfolding methods combined_data_access write_transaction push_transaction create_empty_block
    add_topics add_pending
interpret-create_clear_request_example =
    interpret-create_clear_request environment none storage text_of library json provider none 0 []
      (record { seconds = 0; milliseconds = 7 }) requested (identity alice) [] formatted item
      {s' = 1} {next = (id, item) ∷ []} {id = id} {found = []} {l = []}
      {state = TransactionState.pending} {time = 5} {r = made_at 5} refl refl
      (record {
        refuses_empty = ("Unexpected end of JSON input", refl);
        parses = refl;
        agrees = refl;
      })
      refl refl refl (inl (refl, refl, refl, refl)) refl

persist_update-IsValidated_example :
    (p : SignatureProvider) × (client.signature_provider ≡ some p)
    × ((action : Action) × (format_accept accepting (identity bob) p ≡ ok action)
        × ((request_id : String) × (get_request_id_from_action library action ≡ ok request_id)
            × ((computed : Computed) × (interpret client created request_id ≡ ok computed)
                × IsValidated client computed action 0
                × (persist_action client created request_id action [] []
                    ≡ ok ((id, transaction ∷ stamped (clear_persisted "update") ∷ []) ∷ [])))))
unfolding methods
persist_update-IsValidated_example =
    persist_update-IsValidated client format_accept created 0 accepting (identity bob) []
      {s' = (id, transaction ∷ stamped (clear_persisted "update") ∷ []) ∷ []} refl

persist_update-missing_example :
    persist_update client format_accept [] 0 accepting (identity bob) true []
    ≡ persist_update client format_accept [] 0 accepting (identity bob) false []
unfolding methods
persist_update-missing_example =
    persist_update-missing client format_accept [] 0 accepting (identity bob) [] provider
      (accepted_by bob) id refl refl refl refl
