-- ===== src/RequestLogic/Creation.antt =====
-- The request that `createRequest` of packages/request-logic/src/actions/create.ts makes.
use request_network.Base.{
  ◌≡◌, ◌⊎◌, ℕ, String, Option, none, some, [], ◌∷◌, ok, arith, >>=-eq-ok, true, not, ◌&&◌, is_some,
  throw_if,
}
use request_network.Types.{Identity, Amount, CurrencyParameter, RequestState, Role, Action, Request}
use request_network.Amount.{is_string, is_valid_amount}
use request_network.RequestLogic.Library.{Library}
use request_network.RequestLogic.Action.{
  get_signer_identity_from_action, get_request_id, get_role_in_action, get_version_from_action,
}
use request_network.RequestLogic.Actions.Create.{
  throw_on_error, valid_text_or_throw, creation_currency, generate_create_event, open_request,
  create_request,
}

-- Where the signer stands in a new request, and what follows for its state and its creator.
abbrev pub Opened : Role → Option Identity → Option Identity → Request → Type 0
Opened role the_payee the_payer r =
    (role ≡ Role.payee) × (r.state ≡ RequestState.created) × (r.creator ≡ the_payee)
    ⊎ (role ≡ Role.payer) × (r.state ≡ RequestState.accepted) × (r.creator ≡ the_payer)

-- All that a successful creation has passed, and the request that it returns.
pub record Creates {N : Type 0} (lib : Library N) (action : Action) (time : ℕ) (r : Request)
    : Type 0 where
  pub signer : Identity
  pub recovered : get_signer_identity_from_action lib action ≡ ok signer
  pub opened :
      Opened
        (get_role_in_action signer action)
        action.content.parameters.payee
        action.content.parameters.payer
        r
  pub payee : r.payee ≡ action.content.parameters.payee
  pub payer : r.payer ≡ action.content.parameters.payer
  pub payee_valid : throw_on_error "payee: " r.payee ≡ ok tt
  pub payer_valid : throw_on_error "payer: " r.payer ≡ ok tt
  pub amount : action.content.parameters.expected_amount ≡ some r.expected_amount
  pub amount_valid : is_valid_amount r.expected_amount ≡ true
  pub amount_text : is_string r.expected_amount ≡ true
  pub request_id : get_request_id lib action ≡ ok r.request_id
  pub currency : creation_currency lib action ≡ ok r.currency
  pub version : r.version ≡ action.content.version
  pub extensions : r.extensions ≡ []
  pub events : r.events ≡ generate_create_event action time signer ∷ []
  pub timestamp : r.timestamp ≡ action.content.parameters.timestamp
  pub nonce : r.nonce ≡ action.content.parameters.nonce
  pub extensions_data : r.extensions_data ≡ action.content.parameters.extensions_data

valid_text-ok :
    (o : Option Amount) (e : String) {a : Amount}
    → valid_text_or_throw o e ≡ ok a
    → (o ≡ some a) × (is_valid_amount a ≡ true) × (is_string a ≡ true)
unfolding valid_text_or_throw
valid_text-ok none e h = ground arith
valid_text-ok (some a) e h = ground arith

pub open_request-ok :
    (action : Action) (time : ℕ) (s : Identity) (amount : Amount) (id : String)
    (c : Option CurrencyParameter) {r : Request}
    → open_request action time s amount id c ≡ ok r
    → Opened
        (get_role_in_action s action)
        action.content.parameters.payee
        action.content.parameters.payer
        r
      × (r.payee ≡ action.content.parameters.payee)
      × (r.payer ≡ action.content.parameters.payer)
      × (r.expected_amount ≡ amount)
      × (r.request_id ≡ id)
      × (r.currency ≡ c)
      × (r.version ≡ action.content.version)
      × (r.extensions ≡ [])
      × (r.events ≡ generate_create_event action time s ∷ [])
      × (r.timestamp ≡ action.content.parameters.timestamp)
      × (r.nonce ≡ action.content.parameters.nonce)
      × (r.extensions_data ≡ action.content.parameters.extensions_data)
unfolding open_request get_version_from_action
open_request-ok action time s amount id c h = ground arith

module _ {N : Type 0} (lib : Library N) (action : Action) (time : ℕ) {r : Request} where
  pub create_request-Creates : create_request lib action time ≡ ok r → Creates lib action time r
  unfolding create_request
  create_request-Creates h =
      let p = action.content.parameters in
      let (_, some_party, h₁) =
        >>=-eq-ok (throw_if (not (is_some p.payee) && not (is_some p.payer)) _) _ h in
      let (_, payee_valid, h₂) = >>=-eq-ok (throw_on_error "payee: " p.payee) _ h₁ in
      let (_, payer_valid, h₃) = >>=-eq-ok (throw_on_error "payer: " p.payer) _ h₂ in
      let (amount, amount_ok, h₄) = >>=-eq-ok (valid_text_or_throw p.expected_amount _) _ h₃ in
      let (s, recovered, h₅) = >>=-eq-ok (get_signer_identity_from_action lib action) _ h₄ in
      let (id, id_ok, h₆) = >>=-eq-ok (get_request_id lib action) _ h₅ in
      let (c, c_ok, h₇) = >>=-eq-ok (creation_currency lib action) _ h₆ in
      let (given, valid, is_text) = valid_text-ok p.expected_amount _ amount_ok in
      let (
        opened, e_payee, e_payer, e_amount, e_id, e_c, version, extensions, events, timestamp,
        nonce, extensions_data,
      ) =
        open_request-ok action time s amount id c h₇ in
      record {
        signer = s;
        recovered = recovered;
        opened = opened;
        payee = e_payee;
        payer = e_payer;
        payee_valid = rw e_payee payee_valid;
        payer_valid = rw e_payer payer_valid;
        amount = rw e_amount given;
        amount_valid = rw e_amount valid;
        amount_text = rw e_amount is_text;
        request_id = rw e_id id_ok;
        currency = rw e_c c_ok;
        version = version;
        extensions = extensions;
        events = events;
        timestamp = timestamp;
        nonce = nonce;
        extensions_data = extensions_data;
      }
