-- ===== src/RequestLogic/Effect.antt =====
-- The abstract effect of an update: which role may do what in which state, and what it changes.
pub mod Changed
pub mod Updates
use request_network.Base.{
  ℕ, ◌≡◌, refl, ◌⊎◌, inl, inr, ◌≢◌, Option, none, some, List, [], ◌∷◌, ◌++◌, Result, ok, err, arith,
  true, Option-cases, String, ap, ◌∙◌, sym,
}
use request_network.Types.{
  Identity, Amount, CurrencyParameter, ExtensionAction, ExtensionStates, ActionName, RequestState,
  Role, Action, Event, Request,
}
use request_network.Amount.{add_amount, reduce_amount, is_valid_amount}
use request_network.RequestLogic.Library.{Library}
use request_network.RequestLogic.Role.{get_role_in_request}
use request_network.RequestLogic.Action.{get_signer_identity_from_action}
use request_network.RequestLogic.Actions.Common.{
  generate_event, generate_delta_event, record_action,
}
use request_network.RequestLogic.Core.{update_request}
use request_network.RequestLogic.Inversion.{
  Signed, apply_accept-ok, apply_cancel-ok, apply_increase-ok, apply_reduce-ok,
  apply_add_stakeholders-ok, apply_add_extensions_data-ok,
}

-- The specification of the life cycle: what a role may do in a state, and the state after it.
abbrev pub Allowed : ActionName → Role → RequestState → RequestState → Type 0
Allowed ActionName.accept role s s' =
    (role ≡ Role.payer) × (s ≡ RequestState.created) × (s' ≡ RequestState.accepted)
Allowed ActionName.cancel role s s' =
    ((role ≡ Role.payee) × (s ≢ RequestState.canceled)
      ⊎ (role ≡ Role.payer) × (s ≡ RequestState.created))
    × (s' ≡ RequestState.canceled)
Allowed ActionName.increase_expected_amount role s s' =
    (role ≡ Role.payer) × (s ≢ RequestState.canceled) × (s' ≡ s)
Allowed ActionName.reduce_expected_amount role s s' =
    (role ≡ Role.payee) × (s ≢ RequestState.canceled) × (s' ≡ s)
Allowed ActionName.add_stakeholders role s s' = s' ≡ s
Allowed ActionName.add_extensions_data role s s' = s' ≡ s
Allowed ActionName.create role s s' = ⊥
Allowed ActionName.broadcast role s s' = ⊥

-- What becomes of the expected amount.
abbrev pub Amounts :
    {N : Type 0} → Library N → ActionName → Option Amount → Amount → Amount → Type 0
Amounts lib ActionName.increase_expected_amount delta a a' =
    (d : Amount) × (delta ≡ some d) × (is_valid_amount d ≡ true) × (add_amount lib.big a d ≡ ok a')
Amounts lib ActionName.reduce_expected_amount delta a a' =
    (d : Amount) × (delta ≡ some d)
    × (is_valid_amount d ≡ true)
    × (reduce_amount lib.big a d ≡ ok a')
Amounts lib _ delta a a' = a' ≡ a

-- What no update changes.
pub record Keeps (r r' : Request) : Type 0 where
  pub version : r'.version ≡ r.version
  pub request_id : r'.request_id ≡ r.request_id
  pub creator : r'.creator ≡ r.creator
  pub currency : r'.currency ≡ r.currency
  pub payee : r'.payee ≡ r.payee
  pub payer : r'.payer ≡ r.payer
  pub extensions : r'.extensions ≡ r.extensions
  pub timestamp : r'.timestamp ≡ r.timestamp
  pub nonce : r'.nonce ≡ r.nonce

-- An event says which action it records, by whom and when, and the amount that the action gives.
pub record Records (action : Action) (time : ℕ) (signer : Identity) (e : Event) : Type 0 where
  pub name : e.name ≡ action.content.name
  pub action_signer : e.action_signer ≡ signer
  pub timestamp : e.timestamp ≡ time

-- The delta that an event of an increase or a reduction holds.
abbrev pub RecordsDelta : ActionName → Option Amount → Event → Type 0
RecordsDelta ActionName.increase_expected_amount delta e = e.parameters.delta_amount ≡ delta
RecordsDelta ActionName.reduce_expected_amount delta e = e.parameters.delta_amount ≡ delta
RecordsDelta _ delta e = Unit

-- The extensions data of a request with those of an action behind them.
abbrev pub appended :
    Option (List ExtensionAction) → Option (List ExtensionAction) → Option (List ExtensionAction)
appended old none = old
appended none (some more) = some more
appended (some old) (some more) = some (old ++ more)

pub record Effect {N : Type 0} (lib : Library N) (action : Action) (time : ℕ) (r r' : Request)
    : Type 0 where
  pub signer : Identity
  pub recovered : get_signer_identity_from_action lib action ≡ ok signer
  pub allowed : Allowed action.content.name (get_role_in_request signer r) r.state r'.state
  pub amounts :
      Amounts lib action.content.name action.content.parameters.delta_amount r.expected_amount
        r'.expected_amount
  pub kept : Keeps r r'
  pub event : Event
  pub events : r'.events ≡ r.events ++ event ∷ []
  pub recorded : Records action time signer event
  pub delta : RecordsDelta action.content.name action.content.parameters.delta_amount event
  pub extensions_data :
      r'.extensions_data ≡ appended r.extensions_data action.content.parameters.extensions_data
