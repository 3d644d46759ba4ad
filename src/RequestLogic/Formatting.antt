-- ===== src/RequestLogic/Formatting.antt =====
-- `format` against `createRequest`, both of packages/request-logic/src/actions/create.ts.
use request_network.Base.{
  ℕ, ◌≡◌, refl, ap, ◌∙◌, String, true, false, not, ◌&&◌, is_some, Option, some, none, ok, >>=-eq-ok,
  throw_if, throw_if-ok, throw_if-not-ok, arith, Result-cases, inl, inr,
}
use request_network.Base.Int.{pos, negsuc}
use request_network.Types.{
  Identity, Amount, text, whole, fractional, CurrencyParameter, ActionName, ActionParameters,
  UnsignedAction, Action, Request,
}
use request_network.Amount.{is_valid_amount}
use request_network.Amount.Decimal.{amount_value}
use request_network.Amount.Print.{print-Prints}
use request_network.RequestLogic.Library.{Library}
use request_network.RequestLogic.Version.{specification_version}
use request_network.RequestLogic.Action.{
  SignatureProvider, create_action, get_signer_identity_from_action, get_request_id,
  get_role_in_action,
}
use request_network.RequestLogic.Role.{get_role_in_unsigned_action}
use request_network.RequestLogic.Actions.Create.{
  throw_on_error, amount_to_string, valid_or_throw, valid_text_or_throw, is_stakeholder, or_now,
  format_create, creation_currency, open_request, create_request,
}
use request_network.RequestLogic.Creation.{open_request-ok}

-- The documented behaviour of a signature provider for one signer: the action that it returns holds
-- the content it was given, and its signature is recovered as that of the signer.
pub record IsHonest {N : Type 0} (lib : Library N) (provider : SignatureProvider)
    (signer : Identity) : Type 0 where
  pub content : (c : UnsignedAction) (a : Action) → provider c signer ≡ ok a → a.content ≡ c
  pub recovered :
      (c : UnsignedAction) (a : Action)
      → provider c signer ≡ ok a
      → get_signer_identity_from_action lib a ≡ ok signer

-- An amount that is valid is still valid as a text, and stands for the same number.
amount_to_string-valid :
    (a : Amount)
    → is_valid_amount a ≡ true
    → (valid_text_or_throw (some (amount_to_string a)) "" ≡ ok (amount_to_string a))
      × (amount_value (amount_to_string a) ≡ amount_value a)
unfolding amount_to_string valid_text_or_throw is_valid_amount amount_value
amount_to_string-valid (text s) h = (rw h refl, refl)
amount_to_string-valid (whole (pos n)) h =
    let (digits, value) = print-Prints n in (rw digits refl, value)
amount_to_string-valid (whole (negsuc n)) h = ground arith
amount_to_string-valid (fractional s) h = ground arith

open_request_exists :
    (action : Action) (time : ℕ) (s : Identity) (amount : Amount) (id : String)
    (c : Option CurrencyParameter)
    → is_stakeholder (get_role_in_action s action) ≡ true
    → (r : Request) × (open_request action time s amount id c ≡ ok r)
unfolding open_request
open_request_exists action time s amount id c h =
    elim (Result-cases (open_request action time s amount id c)) [
      | inl opened ↦ opened
      | inr (e, refused) ↦ ground arith
    ]

valid_text_message :
    (o : Option Amount) (e e' : String) {a : Amount}
    → valid_text_or_throw o e ≡ ok a
    → valid_text_or_throw o e' ≡ ok a
unfolding valid_text_or_throw
valid_text_message none e e' h = ground arith
valid_text_message (some a) e e' h = ground arith

valid_or_throw-ok :
    (o : Option Amount) (e : String) {a : Amount}
    → valid_or_throw o e ≡ ok a
    → (o ≡ some a) × (is_valid_amount a ≡ true)
unfolding valid_or_throw
valid_or_throw-ok none e h = ground arith
valid_or_throw-ok (some a) e h = ground arith

content_at :
    {B : Type 0} {v u : UnsignedAction}
    → v ≡ u
    → (f : UnsignedAction → B) {b : B} → f u ≡ b
    → f v ≡ b
content_at same f e = ap f same ∙ e

-- The content that `format` asks a signature for.
abbrev formatted : ℕ → ActionParameters → Amount → UnsignedAction
formatted now p amount = record {
  name = ActionName.create;
  version = specification_version.current;
  parameters = record p {
    timestamp = some (or_now now p.timestamp);
    expected_amount = some (amount_to_string amount);
  };
}

module _ {N : Type 0} (lib : Library N) (action : Action) (time : ℕ) where
  -- What a creation needs to succeed.
  create_request-returns :
      (amount : Amount) (s : Identity) (id : String) (c : Option CurrencyParameter) (r : Request)
      → (not (is_some action.content.parameters.payee)
          && not (is_some action.content.parameters.payer))
        ≡ false
      → throw_on_error "payee: " action.content.parameters.payee ≡ ok tt
      → throw_on_error "payer: " action.content.parameters.payer ≡ ok tt
      → valid_text_or_throw action.content.parameters.expected_amount
          "action.parameters.expectedAmount must be a string representing a positive integer"
        ≡ ok amount
      → get_signer_identity_from_action lib action ≡ ok s
      → get_request_id lib action ≡ ok id
      → creation_currency lib action ≡ ok c
      → open_request action time s amount id c ≡ ok r
      → create_request lib action time ≡ ok r
  unfolding create_request
  create_request-returns amount s id c r a p q v g i k o = rw (a, p, q, v, g, i, k, o) refl

  -- The same, of a content that the action is known to hold.
  create_request-content :
      (u : UnsignedAction) (amount : Amount) (s : Identity) (id : String)
      → action.content ≡ u
      → (not (is_some u.parameters.payee) && not (is_some u.parameters.payer)) ≡ false
      → throw_on_error "payee: " u.parameters.payee ≡ ok tt
      → throw_on_error "payer: " u.parameters.payer ≡ ok tt
      → valid_text_or_throw u.parameters.expected_amount "" ≡ ok amount
      → is_stakeholder (get_role_in_unsigned_action s u) ≡ true
      → lib.semver_lt u.version "2.0.2" ≡ false
      → get_signer_identity_from_action lib action ≡ ok s
      → get_request_id lib action ≡ ok id
      → (r : Request) × (create_request lib action time ≡ ok r)
        × (r.payee ≡ u.parameters.payee)
        × (r.payer ≡ u.parameters.payer)
        × (r.expected_amount ≡ amount)
  unfolding creation_currency get_role_in_action
  create_request-content u amount s id same parties payee payer given role recent signer id_ok =
      let c = action.content.parameters.currency in
      let (r, opened) =
        open_request_exists action time s amount id c
          (content_at same (λ v. is_stakeholder (get_role_in_unsigned_action s v)) role) in
      let (_, e_payee, e_payer, e_amount, _, _, _, _, _, _, _, _) =
        open_request-ok action time s amount id c opened in
      let currency : creation_currency lib action ≡ ok c =
        rw (content_at same (λ v. lib.semver_lt v.version "2.0.2") recent) refl in
      (
        r,
        create_request-returns amount s id c r
            (content_at same
              (λ v. not (is_some v.parameters.payee) && not (is_some v.parameters.payer)) parties)
            (content_at same (λ v. throw_on_error "payee: " v.parameters.payee) payee)
            (content_at same (λ v. throw_on_error "payer: " v.parameters.payer) payer)
            (valid_text_message _ "" _
              (content_at same (λ v. valid_text_or_throw v.parameters.expected_amount "") given))
            signer id_ok currency opened,
        e_payee ∙ ap (λ v. v.parameters.payee) same,
        e_payer ∙ ap (λ v. v.parameters.payer) same,
        e_amount,
      )

-- A creation that the client formats is accepted by the network, and opens a request with the parties
-- that were asked for and the amount that was asked for, whether it was given as a text or as a
-- number: with an honest signature provider, and with an identifier for the action.
pub create_request-format_create :
    {N : Type 0} (lib : Library N) (provider : SignatureProvider) (now time : ℕ)
    (p : ActionParameters) (signer : Identity) (action : Action) (id : String)
    → IsHonest lib provider signer
    → lib.semver_lt specification_version.current "2.0.2" ≡ false
    → format_create now p signer provider ≡ ok action
    → get_request_id lib action ≡ ok id
    → (r : Request) × (create_request lib action time ≡ ok r)
      × (r.payee ≡ p.payee)
      × (r.payer ≡ p.payer)
      × ((amount : Amount) × (p.expected_amount ≡ some amount)
          × (amount_value r.expected_amount ≡ amount_value amount))
unfolding format_create create_action
create_request-format_create lib provider now time p signer action id honest recent h id_ok =
    let (_, parties, h₁) =
      >>=-eq-ok (throw_if (not (is_some p.payee) && not (is_some p.payer)) _) _ h in
    let (amount, amount_ok, h₂) = >>=-eq-ok (valid_or_throw p.expected_amount _) _ h₁ in
    let (_, payee_ok, h₃) = >>=-eq-ok (throw_on_error "payee: " p.payee) _ h₂ in
    let (_, payer_ok, h₄) = >>=-eq-ok (throw_on_error "payer: " p.payer) _ h₃ in
    let (_, party, h₅) =
      >>=-eq-ok
        (throw_if
          (not (is_stakeholder (get_role_in_unsigned_action signer (formatted now p amount)))) _)
        _ h₄ in
    let (given, valid) = valid_or_throw-ok p.expected_amount _ amount_ok in
    let (as_text, same_value) = amount_to_string-valid amount valid in
    let (r, created, payee, payer, e_amount) =
      create_request-content lib action time (formatted now p amount) (amount_to_string amount)
        signer id (honest.content (formatted now p amount) action h₅) (throw_if-ok _ _ parties)
        payee_ok payer_ok as_text (throw_if-not-ok _ _ party) recent
        (honest.recovered (formatted now p amount) action h₅) id_ok in
    (r, created, payee, payer, (amount, given, ap amount_value e_amount ∙ same_value))
