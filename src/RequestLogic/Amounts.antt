-- ===== src/RequestLogic/Amounts.antt =====
-- The expected amount of a request against its events, for packages/request-logic/src.
use request_network.Base.{
  ℕ, ◌+◌, ◌-◌, ◌≡◌, refl, ap, ◌∙◌, Option, none, some, List, [], ◌∷◌, ◌++◌, ok, arith, leb, true,
  Option-cases, if◌then◌else◌, inl, inr,
}
use request_network.Types.{Amount, ActionName, RequestState, Role, Action, Event, Request}
use request_network.Amount.{is_valid_amount, is_string}
use request_network.Amount.Decimal.{amount_value}
use request_network.Amount.Laws.{IsBigNumber, add_amount-ok, reduce_amount-ok}
use request_network.RequestLogic.Library.{Library}
use request_network.RequestLogic.Actions.Create.{generate_create_event}
use request_network.RequestLogic.Core.{AdvancedLogic, apply_action_to_request}
use request_network.RequestLogic.Creation.{Creates}
use request_network.RequestLogic.Effect.{Allowed, Amounts, RecordsDelta, Effect}
use request_network.RequestLogic.Applied.{apply_update, apply_creation}

-- One event on a running amount: a creation sets it, an increase adds to it, a reduction takes
-- from it no more than there is; `none` where an amount is missing or too large to take.
abbrev pub log_step : ActionName → Option Amount → Option Amount → ℕ → Option ℕ
log_step ActionName.create (some a) delta acc = some (amount_value a)
log_step ActionName.create none delta acc = none
log_step ActionName.increase_expected_amount expected (some d) acc = some (acc + amount_value d)
log_step ActionName.increase_expected_amount expected none acc = none
log_step ActionName.reduce_expected_amount expected (some d) acc =
    if leb (amount_value d) acc then some (acc - amount_value d) else none
log_step ActionName.reduce_expected_amount expected none acc = none
log_step _ expected delta acc = some acc

abbrev pub log_event : Event → ℕ → Option ℕ
log_event e = log_step e.name e.parameters.expected_amount e.parameters.delta_amount

-- The amount that a list of events makes of a running amount.
unfoldable pub log_amount : List Event → ℕ → Option ℕ
log_amount [] acc = some acc
log_amount (e ∷ l) acc = elim (log_event e acc) [ none ↦ none | some next ↦ log_amount l next ]

next-eta : (o : Option ℕ) → elim o [ none ↦ none | some next ↦ some next ] ≡ o
next-eta none = refl
next-eta (some n) = refl

log_amount-snoc :
    (l : List Event) (e : Event) (acc : ℕ) {n : ℕ}
    → log_amount l acc ≡ some n
    → log_amount (l ++ e ∷ []) acc ≡ log_event e n
unfolding log_amount
log_amount-snoc [] e acc {n} h =
    let same : acc ≡ n = ground arith in rw same (next-eta (log_event e n))
log_amount-snoc (x ∷ l) e acc {n} h = elim (Option-cases (log_event x acc)) [
  | inl stop ↦ ground arith
  | inr (next, go) ↦ rw (go, log_amount) (log_amount-snoc l e next (ground arith))
]

-- The amount of a request is a valid text, and its events add up to it.
pub record IsSourced (r : Request) : Type 0 where
  pub valid : is_valid_amount r.expected_amount ≡ true
  pub is_text : is_string r.expected_amount ≡ true
  pub logged : log_amount r.events 0 ≡ some (amount_value r.expected_amount)

abbrev pub SourcedIfGiven : Option Request → Type 0
SourcedIfGiven none = Unit
SourcedIfGiven (some r) = IsSourced r

module _ {N : Type 0} (lib : Library N) (laws : IsBigNumber lib.big) where
  -- The amount after an event is the amount before it, changed as the event says.
  log_event-Amounts :
      (name : ActionName) (role : Role) (s s' : RequestState) (delta : Option Amount) (e : Event)
      (a a' : Amount)
      → e.name ≡ name
      → Allowed name role s s'
      → Amounts lib name delta a a'
      → RecordsDelta name delta e
      → log_event e (amount_value a) ≡ some (amount_value a')
  log_event-Amounts ActionName.increase_expected_amount role s s' delta e a a' n al
        (d, given, valid, sum) rec =
      let (_, _, value) = add_amount-ok laws a d sum in ground arith
  log_event-Amounts ActionName.reduce_expected_amount role s s' delta e a a' n al
        (d, given, valid, sum) rec =
      let (_, _, value) = reduce_amount-ok laws a d sum in ground arith
  log_event-Amounts ActionName.create role s s' delta e a a' n al am rec = absurd al
  log_event-Amounts name role s s' delta e a a' n al am rec = ground arith

  amount_text :
      (name : ActionName) (delta : Option Amount) (a a' : Amount)
      → Amounts lib name delta a a'
      → is_valid_amount a ≡ true
      → is_string a ≡ true
      → (is_valid_amount a' ≡ true) × (is_string a' ≡ true)
  amount_text ActionName.increase_expected_amount delta a a' (d, given, valid, sum) va sa =
      let (v, t, _) = add_amount-ok laws a d sum in (v, t)
  amount_text ActionName.reduce_expected_amount delta a a' (d, given, valid, sum) va sa =
      let (v, t, _) = reduce_amount-ok laws a d sum in (v, t)
  amount_text name delta a a' h va sa = (rw h va, rw h sa)

  Effect-IsSourced :
      (action : Action) (time : ℕ) (r r' : Request)
      → Effect lib action time r r'
      → IsSourced r
      → IsSourced r'
  Effect-IsSourced action time r r' effect h =
      let (valid, is_text) =
        amount_text action.content.name _ r.expected_amount r'.expected_amount effect.amounts
          h.valid h.is_text in
      let step =
        log_event-Amounts action.content.name _ r.state r'.state _ effect.event r.expected_amount
          r'.expected_amount effect.recorded.name effect.allowed effect.amounts effect.delta in
      record {
        valid = valid;
        is_text = is_text;
        logged =
            ap (λ (l : List Event). log_amount l 0) effect.events
            ∙ (log_amount-snoc r.events effect.event 0 h.logged ∙ step);
      }

Creates-IsSourced :
    {N : Type 0} (lib : Library N) (action : Action) (time : ℕ) (r : Request)
    → Creates lib action time r
    → IsSourced r
unfolding log_amount generate_create_event
Creates-IsSourced lib action time r c = record {
  valid = c.amount_valid;
  is_text = c.amount_text;
  logged = rw (c.events, log_amount) (ground (arith, c.amount));
}

module _ {N : Type 0} (lib : Library N) (laws : IsBigNumber lib.big)
    (advanced : Option AdvancedLogic) (action : Action) (time : ℕ) {r' : Request} where
  -- Of every request that a creation makes, and of every update of such a request, the expected
  -- amount is a text of digits, and its value is what the events of the request add up to: the
  -- amount of the creation, plus the increases, less the reductions, none of which takes more than
  -- there is at its turn.
  pub apply-IsSourced :
      (state : Option Request)
      → SourcedIfGiven state
      → apply_action_to_request lib advanced state action time ≡ ok r'
      → IsSourced r'
  apply-IsSourced none h e =
      let (m, name, created, (states, same)) = apply_creation lib advanced action time e in
      let sourced = Creates-IsSourced lib action time m created in
      rw same (record { valid = sourced.valid; is_text = sourced.is_text; logged = sourced.logged })
  apply-IsSourced (some r) h e =
      let (m, checked, effect, (states, same)) = apply_update lib advanced action time r e in
      let sourced = Effect-IsSourced lib laws action time r m effect h in
      rw same (record { valid = sourced.valid; is_text = sourced.is_text; logged = sourced.logged })
