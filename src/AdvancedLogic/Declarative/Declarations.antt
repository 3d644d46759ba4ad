-- ===== src/AdvancedLogic/Declarative/Declarations.antt =====
-- Properties of the four declarations of declarative.ts.
use request_network.Base.{
  ap, ◌∙◌, ℕ, ◌+◌, ◌≡◌, ◌≢◌, ◌⊎◌, refl, String, Option, none, some, [], ◌∷◌, ◌++◌, ok, arith, not,
  true, >>=-eq-ok, throw_if,
}
use request_network.Types.{
  Identity, Amount, ExtensionAction, ExtensionEvent, ExtensionState, ExtensionValues, Role, Request,
}
use request_network.Amount.{BigNumber, is_valid_amount, add_amount, is_string}
use request_network.Amount.Decimal.{amount_value}
use request_network.Amount.Laws.{IsBigNumber, add_amount-ok}
use request_network.Identity.{are_equal_identities}
use request_network.AdvancedLogic.Extension.{read_parameters, ApplyAction}
use request_network.AdvancedLogic.Extension.Laws.{ok-inj, read_parameters-ok}
use request_network.AdvancedLogic.Declarative.{
  check_identities, push_event, declared, Counter, counter, set_counter, is_valid, add_optional,
  declare, declarative_actions, apply_declare_sent_payment, apply_declare_sent_refund,
  apply_declare_received_payment, apply_declare_received_refund,
}

-- The signer is the party of the request with the role, or the delegate that it has named.
abbrev pub Speaks : Role → ExtensionState → Request → Identity → Type 0
Speaks Role.payee state request signer =
    (are_equal_identities (some signer) request.payee ≡ true)
    ⊎ (are_equal_identities (some signer) state.values.payee_delegate ≡ true)
Speaks Role.payer state request signer =
    (are_equal_identities (some signer) request.payer ≡ true)
    ⊎ (are_equal_identities (some signer) state.values.payer_delegate ≡ true)
Speaks Role.third_party state request signer = ⊥

check_identities-Speaks :
    (role : Role) (state : ExtensionState) (request : Request) (signer : Identity) {u : Unit {0}}
    → check_identities state request signer role ≡ ok u
    → Speaks role state request signer
unfolding check_identities
check_identities-Speaks Role.payer state request signer h = ground arith
check_identities-Speaks Role.payee state request signer h = ground arith
check_identities-Speaks Role.third_party state request signer h = ground arith

counter_set :
    (which : Counter) (a : Amount) (v : ExtensionValues)
    → counter which (set_counter which a v) ≡ some a
counter_set Counter.sent_payment a v = refl
counter_set Counter.sent_refund a v = refl
counter_set Counter.received_payment a v = refl
counter_set Counter.received_refund a v = refl

counter_kept :
    (which other : Counter) (a : Amount) (v : ExtensionValues)
    → other ≢ which
    → counter other (set_counter which a v) ≡ counter other v
counter_kept Counter.sent_payment Counter.sent_payment a v h = absurd (h refl)
counter_kept Counter.sent_refund Counter.sent_refund a v h = absurd (h refl)
counter_kept Counter.received_payment Counter.received_payment a v h = absurd (h refl)
counter_kept Counter.received_refund Counter.received_refund a v h = absurd (h refl)
counter_kept Counter.sent_payment other a v h = ground arith
counter_kept Counter.sent_refund other a v h = ground arith
counter_kept Counter.received_payment other a v h = ground arith
counter_kept Counter.received_refund other a v h = ground arith

-- The party that a counter belongs to.
abbrev pub party : Counter → Role
party Counter.sent_payment = Role.payer
party Counter.sent_refund = Role.payee
party Counter.received_payment = Role.payee
party Counter.received_refund = Role.payer

-- The event, and the action, that a counter counts.
abbrev pub counter_event : Counter → String
counter_event Counter.sent_payment = "declareSentPayment"
counter_event Counter.sent_refund = "declareSentRefund"
counter_event Counter.received_payment = "declareReceivedPayment"
counter_event Counter.received_refund = "declareReceivedRefund"

-- What a declaration of a party does to a counter.
pub record Declares (role : Role) (which : Counter) (name : String) (state : ExtensionState)
    (action : ExtensionAction) (request : Request) (signer : Identity) (timestamp : ℕ)
    (next : ExtensionState) : Type 0 where
  pub speaks : Speaks role state request signer
  pub given_values : ExtensionValues
  pub given_parameters : action.parameters ≡ some given_values
  pub declared_amount : Amount
  pub given_amount : given_values.amount ≡ some declared_amount
  pub valid : is_valid_amount declared_amount ≡ true
  pub before : Amount
  pub counted_before : counter which state.values ≡ some before
  pub total : Amount
  pub counted : counter which next.values ≡ some total
  pub digits : (is_string total ≡ true) × (is_valid_amount total ≡ true)
  pub sum : amount_value total ≡ amount_value before + amount_value declared_amount
  pub others :
      (other : Counter) → other ≢ which → counter other next.values ≡ counter other state.values
  pub event : ExtensionEvent
  pub event_name : event.name ≡ name
  pub event_amount : event.parameters.amount ≡ some declared_amount
  pub events : next.events ≡ state.events ++ event ∷ []

some-inj : {a b : ApplyAction} → some a ≡ some b → a ≡ b
some-inj h = ground arith

module _ {N : Type 0} (big : BigNumber N) where
  add_optional-ok :
      (a d : Option Amount) {r : Amount}
      → add_optional big a d ≡ ok r
      → (x : Amount) × (a ≡ some x) × ((y : Amount) × (d ≡ some y) × (add_amount big x y ≡ ok r))
  unfolding add_optional
  add_optional-ok none d h = ground arith
  add_optional-ok (some a) none h = ground arith
  add_optional-ok (some a) (some d) h = (a, refl, (d, refl, h))

  valid_given :
      (o : Option Amount) (e : String) (d : Amount) {u : Unit {0}}
      → o ≡ some d
      → throw_if (not (is_valid o)) e ≡ ok u
      → is_valid_amount d ≡ true
  valid_given none e d g h = ground arith
  valid_given (some x) e d g h = ground arith

  -- The state after a declaration, from what it has checked.
  counted-Declares :
      (role : Role) (which : Counter) (name : String) (state : ExtensionState)
      (action : ExtensionAction) (request : Request) (signer : Identity) (timestamp : ℕ)
      (p : ExtensionValues) (d x sum : Amount)
      → Speaks role state request signer
      → action.parameters ≡ some p
      → (p.amount ≡ some d) × (is_valid_amount d ≡ true)
      → counter which state.values ≡ some x
      → ((is_string sum ≡ true) × (is_valid_amount sum ≡ true))
        × (amount_value sum ≡ amount_value x + amount_value d)
      → Declares role which name state action request signer timestamp (
          push_event
            (record state { values = set_counter which sum state.values })
            name
            (declared p)
            timestamp
            signer)
  counted-Declares role which name state action request signer timestamp p d x sum speaks parameters
        (given, valid) counted (digits, value) =
      record {
        speaks = speaks;
        given_values = p;
        given_parameters = parameters;
        declared_amount = d;
        given_amount = given;
        valid = valid;
        before = x;
        counted_before = counted;
        total = sum;
        counted = counter_set which sum state.values;
        digits = digits;
        sum = value;
        others = λ other h. counter_kept which other sum state.values h;
        event = record {
          name = name;
          parameters = declared p;
          timestamp = timestamp;
          sender = some signer;
        };
        event_name = refl;
        event_amount = given;
        events = refl;
      }

  pub declare-Declares :
      (laws : IsBigNumber big) (role : Role) (which : Counter) (name : String)
      (state : ExtensionState) (action : ExtensionAction) (request : Request) (signer : Identity)
      (timestamp : ℕ) {next : ExtensionState}
      → declare big role which name state action request signer timestamp ≡ ok next
      → Declares role which name state action request signer timestamp next
  unfolding declare
  declare-Declares laws role which name state action request signer timestamp {next} h =
      let (_, speaks, h₁) = >>=-eq-ok (check_identities state request signer role) _ h in
      let (p, parameters, h₂) = >>=-eq-ok (read_parameters action "amount") _ h₁ in
      let (_, checked, h₃) = >>=-eq-ok (throw_if (not (is_valid p.amount)) _) _ h₂ in
      let (sum, added, h₄) =
        >>=-eq-ok (add_optional big (counter which state.values) p.amount) _ h₃ in
      let (x, counted, (y, same_amount, plus)) =
        add_optional-ok (counter which state.values) p.amount added in
      let (valid_sum, is_text, value) = add_amount-ok laws x y plus in
      let same : next
          ≡ push_event (record state { values = set_counter which sum state.values }) name
              (declared p) timestamp signer =
        ok-inj h₄ in
      rw same (
        counted-Declares role which name state action request signer timestamp p y x sum
          (check_identities-Speaks role state request signer speaks)
          (read_parameters-ok action "amount" parameters)
          (same_amount, valid_given p.amount _ y same_amount checked) counted
          ((is_text, valid_sum), value))

  declared_by :
      (which : Counter) {apply : ApplyAction}
      → declarative_actions big (counter_event which) ≡ some apply
      → declare big (party which) which (counter_event which) ≡ apply
  unfolding declarative_actions apply_declare_sent_payment apply_declare_sent_refund
      apply_declare_received_payment apply_declare_received_refund
  declared_by Counter.sent_payment h = some-inj h
  declared_by Counter.sent_refund h = some-inj h
  declared_by Counter.received_payment h = some-inj h
  declared_by Counter.received_refund h = some-inj h

  -- The four actions by which a counter is declared, looked up by their names, each let the payer
  -- declare the payments that it sent and the refunds that it received, and the payee the payments
  -- that it received and the refunds that it sent. One that succeeds is made by that party or by its
  -- delegate, gives a valid amount, adds it to its own counter and to no other, and appends one event
  -- with its name and that amount.
  pub action-Declares :
      (laws : IsBigNumber big) (which : Counter) {apply : ApplyAction} (state : ExtensionState)
      (action : ExtensionAction) (request : Request) (signer : Identity) (timestamp : ℕ)
      {next : ExtensionState}
      → declarative_actions big (counter_event which) ≡ some apply
      → apply state action request signer timestamp ≡ ok next
      → Declares
          (party which)
          which
          (counter_event which)
          state
          action
          request
          signer
          timestamp
          next
  action-Declares laws which state action request signer timestamp {next} found h =
      declare-Declares laws (party which) which (counter_event which) state action request signer
        timestamp
        (ap (λ (a : ApplyAction). a state action request signer timestamp) (declared_by which found)
          ∙ h)
