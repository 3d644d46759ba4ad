-- ===== src/RequestLogic/Methods.antt =====
-- The public methods of packages/request-logic/src/request-logic.ts that write: they format an
-- action, may validate it, and persist it on a transaction manager. The time is an argument.
pub mod Reading
pub mod Validation
pub mod Single
pub mod EndToEnd
pub mod Stored
use request_network.Base.{
  ℕ, Bool, true, false, not, String, Option, none, some, List, [], ◌∷◌, Result, ok, err, ◌>>=◌,
  ◌>>◌, throw_if, is_some, lower, ◌==◌, length,
}
use request_network.Types.{Identity, Action, ActionParameters, Request}
use request_network.Encryption.{EncryptionParameters}
use request_network.MultiFormat.{serialize}
use request_network.RequestLogic.Library.{Library}
use request_network.RequestLogic.Action.{SignatureProvider}
use request_network.RequestLogic.Core.{
  AdvancedLogic, apply_action_to_request, get_request_id_from_action,
}
use request_network.RequestLogic.Replay.{Transaction, Computed, compute_request_from_request_id}
use request_network.RequestLogic.Actions.Create.{format_create}
use request_network.RequestLogic.Actions.Accept.{format_accept}
use request_network.RequestLogic.Actions.Cancel.{format_cancel}
use request_network.RequestLogic.Actions.IncreaseExpectedAmount.{format_increase_expected_amount}
use request_network.RequestLogic.Actions.ReduceExpectedAmount.{format_reduce_expected_amount}
use request_network.RequestLogic.Actions.AddStakeholders.{format_add_stakeholders}
use request_network.RequestLogic.Actions.AddExtensionsData.{format_add_extensions_data}

-- `ITransactionManager`, over the state below it: `persist` takes the data, the channel, the topics
-- and the encryption parameters.
pub record ManagerAccess (S : Type 0) : Type 0 where
  pub persist : S → String → String → List String → List EncryptionParameters → Result S
  pub get : S → String → Result (List (Option Transaction))

-- `JSON.stringify` of an action, `JSON.parse` as an action, and `JSON.stringify(deepSort(topic))`.
pub record JsonLibrary : Type 0 where
  pub stringify : Action → String
  pub parse : String → Option Action
  pub sorted_topic : String → String

-- The two clocks of a creation: `getCurrentTimestampInSecond()`, which the action is formatted with,
-- and `Date.now()`, at which it is tried.
pub record Clock : Type 0 where
  pub seconds : ℕ
  pub milliseconds : ℕ

-- What `createCreationActionRequestIdAndTopics` returns.
pub record Creation : Type 0 where
  pub action : Action
  pub hashed_topics : List String
  pub request_id : String

-- The class: its library, and the three arguments of its constructor.
pub record RequestLogic (N S : Type 0) : Type 0 where
  pub lib : Library N
  pub json : JsonLibrary
  pub manager : ManagerAccess S
  pub signature_provider : Option SignatureProvider
  pub advanced_logic : Option AdvancedLogic

abbrev pub Format : Type 0
Format = ActionParameters → Identity → SignatureProvider → Result Action

module _ {N S : Type 0} (logic : RequestLogic N S) where
  -- `if (!this.signatureProvider) throw …`
  unfoldable pub given_provider : Result SignatureProvider
  given_provider = elim logic.signature_provider [
    | some provider ↦ ok provider
    | none ↦ err "You must give a signature provider to create actions"
  ]

  unfoldable pub hash_topic : String → Result String
  hash_topic topic = serialize (record {
    type = "keccak256";
    value = logic.lib.crypto.keccak256 (lower (logic.json.sorted_topic topic));
  })

  unfoldable pub hash_topics : List String → Result (List String)
  unfolding hash_topic
  hash_topics [] = ok []
  hash_topics (topic ∷ topics) = do
    hashed ← hash_topic topic
    rest ← hash_topics topics
    ok (hashed ∷ rest)

  unfoldable pub persist_action :
      S → String → Action → List String → List EncryptionParameters → Result S
  persist_action s request_id action topics encryption_params =
      logic.manager.persist s (logic.json.stringify action) request_id topics encryption_params

  unfoldable pub create_creation_action_request_id_and_topics :
      ℕ → ActionParameters → Identity → List String → Result Creation
  unfolding given_provider hash_topics
  create_creation_action_request_id_and_topics now parameters signer topics = do
    provider ← given_provider
    action ← format_create now parameters signer provider
    request_id ← get_request_id_from_action logic.lib action
    hashed_topics ← hash_topics topics
    ok (record { action = action; hashed_topics = hashed_topics; request_id = request_id })

  -- What `createRequest` and `createEncryptedRequest` do with their encryption parameters.
  unfoldable pub persist_creation :
      S
      → Clock
      → ActionParameters
      → Identity
      → List String
      → List EncryptionParameters
      → Result (S × String)
  unfolding create_creation_action_request_id_and_topics persist_action
  persist_creation s now parameters signer topics encryption_params = do
    made ← create_creation_action_request_id_and_topics now.seconds parameters signer topics
    request ←
        apply_action_to_request logic.lib logic.advanced_logic none made.action now.milliseconds
    next ← persist_action s made.request_id made.action made.hashed_topics encryption_params
    ok (next, made.request_id)

  unfoldable pub create_clear_request :
      S → Clock → ActionParameters → Identity → List String → Result (S × String)
  unfolding persist_creation
  create_clear_request s now parameters signer topics =
      persist_creation s now parameters signer topics []

  unfoldable pub create_encrypted_request :
      S
      → Clock
      → ActionParameters
      → Identity
      → List EncryptionParameters
      → List String
      → Result (S × String)
  unfolding persist_creation
  create_encrypted_request s now parameters signer encryption_params topics = do
    throw_if (length encryption_params == 0)
        "You must give at least one encryption parameter to create an encrypted request"
    persist_creation s now parameters signer topics encryption_params

  unfoldable pub compute_request_id : Clock → ActionParameters → Identity → Result String
  unfolding given_provider
  compute_request_id now parameters signer = do
    provider ← given_provider
    action ← format_create now.seconds parameters signer provider
    request ← apply_action_to_request logic.lib logic.advanced_logic none action now.milliseconds
    get_request_id_from_action logic.lib action

  -- `computeRequestFromRequestId`
  unfoldable pub interpret : S → String → Result Computed
  interpret s request_id = do
    transactions ← logic.manager.get s request_id
    ok (
        compute_request_from_request_id logic.lib logic.advanced_logic logic.json.parse
          transactions)

  -- `validateAction`: an error on the confirmed state is caught, and asked again of the pending
  -- state where there is one.
  unfoldable pub validate_states : Option Request → Option Request → Action → ℕ → Result (Unit {0})
  validate_states confirmed pending action now =
      elim (apply_action_to_request logic.lib logic.advanced_logic confirmed action now) [
        | ok request ↦ ok tt
        | err e ↦ elim pending [
          | none ↦ ok tt
          | some p ↦ do
            request ← apply_action_to_request logic.lib logic.advanced_logic (some p) action now
            ok tt
        ]
      ]

  unfoldable pub validate_action : S → String → Action → ℕ → Result (Unit {0})
  unfolding interpret validate_states
  validate_action s request_id action now = do
    computed ← interpret s request_id
    validate_states computed.confirmed computed.pending action now

  -- The steps that the six updates share.
  unfoldable pub persist_update :
      Format → S → ℕ → ActionParameters → Identity → Bool → List EncryptionParameters → Result S
  unfolding given_provider validate_action persist_action
  persist_update format s now parameters signer validate encryption_params = do
    provider ← given_provider
    action ← format parameters signer provider
    request_id ← get_request_id_from_action logic.lib action
    elim validate [ true ↦ validate_action s request_id action now | false ↦ ok tt ]
    persist_action s request_id action [] encryption_params

  abbrev Update : Type 0
  Update = S → ℕ → ActionParameters → Identity → Bool → Result S

  unfoldable pub accept_request : Update
  unfolding persist_update
  accept_request s now parameters signer validate =
      persist_update format_accept s now parameters signer validate []

  unfoldable pub cancel_request : Update
  unfolding persist_update
  cancel_request s now parameters signer validate =
      persist_update format_cancel s now parameters signer validate []

  unfoldable pub increase_expected_amount_request : Update
  unfolding persist_update
  increase_expected_amount_request s now parameters signer validate =
      persist_update format_increase_expected_amount s now parameters signer validate []

  unfoldable pub reduce_expected_amount_request : Update
  unfolding persist_update
  reduce_expected_amount_request s now parameters signer validate =
      persist_update format_reduce_expected_amount s now parameters signer validate []

  unfoldable pub add_stakeholders_request :
      S → ℕ → ActionParameters → Identity → List EncryptionParameters → Bool → Result S
  unfolding persist_update
  add_stakeholders_request s now parameters signer encryption_params validate =
      persist_update format_add_stakeholders s now parameters signer validate encryption_params

  unfoldable pub add_extensions_data_request : Update
  unfolding persist_update
  add_extensions_data_request s now parameters signer validate =
      persist_update format_add_extensions_data s now parameters signer validate []
