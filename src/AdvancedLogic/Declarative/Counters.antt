-- ===== src/AdvancedLogic/Declarative/Counters.antt =====
-- The four counters of a declarative payment network (declarative.ts) against the events of its
-- state.
pub mod Silent
pub mod Network
use request_network.Base.{
  ℕ, ◌+◌, ◌≡◌, ◌≢◌, ◌⊎◌, inl, inr, refl, ap, ◌∙◌, sym, String, str_eq, Option, none, some, List, [],
  ◌∷◌, ◌++◌, ok, err, arith, is_some, not, true, false, >>=-eq-ok, throw_if, Bool-cases,
  if◌then◌else◌, eq_iff,
}
use request_network.Types.{
  Json, Identity, Amount, ExtensionAction, ExtensionEvent, ExtensionState, ExtensionValues, Role,
  Request, given_json, no_values, text,
}
use request_network.Amount.{BigNumber, is_string, is_valid_amount}
use request_network.Amount.Decimal.{amount_value}
use request_network.Amount.Laws.{IsBigNumber}
use request_network.Identity.{are_equal_identities}
use request_network.AdvancedLogic.Extension.{ApplyAction, read_parameters, abstract_creation}
use request_network.AdvancedLogic.Extension.Laws.{ok-inj}
use request_network.AdvancedLogic.Declarative.{
  check_identities, push_event, Counter, counter, declare, apply_declare_sent_payment,
  apply_declare_sent_refund, apply_declare_received_payment, apply_declare_received_refund,
  apply_add_payment_instruction, apply_add_refund_instruction, apply_add_delegate,
  declarative_actions, declarative_creation,
}
use request_network.AdvancedLogic.Declarative.Declarations.{
  Declares, declare-Declares, counter_event,
}

abbrev value_of : Option Amount → ℕ
value_of none = 0
value_of (some a) = amount_value a

abbrev pub amount_of : Counter → ExtensionEvent → ℕ
amount_of which e = if str_eq e.name (counter_event which) then value_of e.parameters.amount else 0

-- What the events of a counter declare, in all.
unfoldable pub declared_total : Counter → List ExtensionEvent → ℕ
declared_total which [] = 0
declared_total which (e ∷ l) = amount_of which e + declared_total which l

declared_total-snoc :
    (which : Counter) (l : List ExtensionEvent) (e : ExtensionEvent)
    → declared_total which (l ++ e ∷ []) ≡ declared_total which l + amount_of which e
unfolding declared_total
declared_total-snoc which [] e = omega arith
declared_total-snoc which (x ∷ l) e = omega (arith, declared_total-snoc which l e)

-- A counter holds a text that is a valid amount and stands for the sum of what its events declare.
pub record IsCounted (which : Counter) (state : ExtensionState) : Type 0 where
  pub held : Amount
  pub counted : counter which state.values ≡ some held
  pub digits : (is_string held ≡ true) × (is_valid_amount held ≡ true)
  pub total : amount_value held ≡ declared_total which state.events

pub Counter-cases : (a b : Counter) → (a ≡ b) ⊎ (a ≢ b)
Counter-cases a b = ground arith

counter_event-other : (a b : Counter) → a ≢ b → str_eq (counter_event b) (counter_event a) ≡ false
counter_event-other Counter.sent_payment Counter.sent_payment h = absurd (h refl)
counter_event-other Counter.sent_payment Counter.sent_refund h = refl
counter_event-other Counter.sent_payment Counter.received_payment h = refl
counter_event-other Counter.sent_payment Counter.received_refund h = refl
counter_event-other Counter.sent_refund Counter.sent_payment h = refl
counter_event-other Counter.sent_refund Counter.sent_refund h = absurd (h refl)
counter_event-other Counter.sent_refund Counter.received_payment h = refl
counter_event-other Counter.sent_refund Counter.received_refund h = refl
counter_event-other Counter.received_payment Counter.sent_payment h = refl
counter_event-other Counter.received_payment Counter.sent_refund h = refl
counter_event-other Counter.received_payment Counter.received_payment h = absurd (h refl)
counter_event-other Counter.received_payment Counter.received_refund h = refl
counter_event-other Counter.received_refund Counter.sent_payment h = refl
counter_event-other Counter.received_refund Counter.sent_refund h = refl
counter_event-other Counter.received_refund Counter.received_payment h = refl
counter_event-other Counter.received_refund Counter.received_refund h = absurd (h refl)

pub amount_of-mine :
    (which : Counter) (e : ExtensionEvent) (d : Amount)
    → e.name ≡ counter_event which
    → e.parameters.amount ≡ some d
    → amount_of which e ≡ amount_value d
amount_of-mine which e d name given = ground (arith, eq_iff e.name (counter_event which))

pub amount_of-other :
    (which mine : Counter) (e : ExtensionEvent)
    → e.name ≡ counter_event mine
    → which ≢ mine
    → amount_of which e ≡ 0
amount_of-other which mine e name other = ground (arith, counter_event-other which mine other)

-- An event that counts as much as the counter grows keeps the counter the sum of its events.
pub IsCounted-snoc :
    (which : Counter) (state next : ExtensionState) (e : ExtensionEvent) (a : Amount)
    (h : IsCounted which state)
    → next.events ≡ state.events ++ e ∷ []
    → counter which next.values ≡ some a
    → (is_string a ≡ true) × (is_valid_amount a ≡ true)
    → amount_value a ≡ amount_value h.held + amount_of which e
    → IsCounted which next
IsCounted-snoc which state next e a h events held digits grown = record {
  held = a;
  counted = held;
  digits = digits;
  total =
      grown
      ∙ (omega (arith, h.total, declared_total-snoc which state.events e)
          ∙ ap (declared_total which) (sym events));
}
