-- ===== src/AdvancedLogic/Declarative/Counters/Network.antt =====
-- The counters under the creation and every action of declarative.ts.
use request_network.Base.{
  ℕ, ◌≡◌, ◌⊎◌, inl, inr, refl, ap, ◌∙◌, sym, String, some, [], ◌∷◌, ok, arith, >>=-eq-ok,
}
use request_network.Types.{
  Identity, ExtensionAction, ExtensionEvent, ExtensionState, ExtensionValues, Role, Request, text,
}
use request_network.Amount.{BigNumber, is_valid_amount}
use request_network.Amount.Decimal.{amount_value}
use request_network.Amount.Laws.{IsBigNumber}
use request_network.AdvancedLogic.Extension.{ApplyAction, abstract_creation}
use request_network.AdvancedLogic.Extension.Laws.{ok-inj}
use request_network.AdvancedLogic.Declarative.{
  Counter, counter, declare, apply_declare_sent_payment, apply_declare_sent_refund,
  apply_declare_received_payment, apply_declare_received_refund, apply_add_payment_instruction,
  apply_add_refund_instruction, apply_add_delegate, declarative_actions, declarative_creation,
}
use request_network.AdvancedLogic.Declarative.Declarations.{declare-Declares}
use request_network.AdvancedLogic.Declarative.Counters.{
  amount_of, declared_total, IsCounted, Counter-cases, amount_of-mine, amount_of-other,
  IsCounted-snoc,
}
use request_network.AdvancedLogic.Declarative.Declarations.{counter_event}
use request_network.AdvancedLogic.Declarative.Counters.Silent.{
  payment_instruction-IsCounted, refund_instruction-IsCounted, delegate-IsCounted, Uncounted,
}

module _ {N : Type 0} (big : BigNumber N) (laws : IsBigNumber big) where
  -- A declaration adds to its own counter what its event adds to the sum, and to no other.
  pub declare-IsCounted :
      (role : Role) (mine which : Counter) (state : ExtensionState) (action : ExtensionAction)
      (request : Request) (signer : Identity) (timestamp : ℕ) {next : ExtensionState}
      → IsCounted which state
      → declare big role mine (counter_event mine) state action request signer timestamp ≡ ok next
      → IsCounted which next
  declare-IsCounted role mine which state action request signer timestamp {next} h e =
      let d =
        declare-Declares big laws role mine (counter_event mine) state action request signer
          timestamp e in
      elim (Counter-cases which mine) [
        | inl same ↦
            let name : d.event.name ≡ counter_event which =
              d.event_name ∙ ap counter_event (sym same) in
            let held : counter which next.values ≡ some d.total =
              ap (λ (c : Counter). counter c next.values) same ∙ d.counted in
            let start : some h.held ≡ some d.before =
              sym h.counted
              ∙ (ap (λ (c : Counter). counter c state.values) same ∙ d.counted_before) in
            IsCounted-snoc which state next d.event d.total h d.events held d.digits (
              d.sum
              ∙ ground (
                arith,
                start,
                amount_of-mine which d.event d.declared_amount name d.event_amount,
              ))
        | inr other ↦
            IsCounted-snoc which state next d.event h.held h d.events
              (d.others which other ∙ h.counted) h.digits
              (omega (arith, amount_of-other which mine d.event d.event_name other))
      ]

module _ {N : Type 0} (big : BigNumber N) where
  actions-cases :
      (name : String) {apply : ApplyAction}
      → declarative_actions big name ≡ some apply
      → (apply ≡ apply_add_payment_instruction)
        ⊎ ((apply ≡ apply_add_refund_instruction)
            ⊎ ((apply ≡ apply_add_delegate)
                ⊎ ((apply ≡ apply_declare_sent_payment big)
                    ⊎ ((apply ≡ apply_declare_sent_refund big)
                        ⊎ ((apply ≡ apply_declare_received_payment big)
                            ⊎ (apply ≡ apply_declare_received_refund big))))))
  unfolding declarative_actions
  actions-cases name h = ground arith

  -- At every step of a declarative payment network each of its four counters stands for the sum of
  -- the amounts that its events declare: no action but the declaration of its own name changes it,
  -- and an event of that name is only written by that declaration.
  pub action-IsCounted :
      (laws : IsBigNumber big) (name : String) {apply : ApplyAction} (which : Counter)
      (state : ExtensionState) (action : ExtensionAction) (request : Request) (signer : Identity)
      (timestamp : ℕ) {next : ExtensionState}
      → declarative_actions big name ≡ some apply
      → IsCounted which state
      → apply state action request signer timestamp ≡ ok next
      → IsCounted which next
  unfolding apply_declare_sent_payment apply_declare_sent_refund apply_declare_received_payment
      apply_declare_received_refund
  action-IsCounted laws name {apply} which state action request signer timestamp {next} supported h
        e =
      let runs : (other : ApplyAction)
          → apply ≡ other
          → other state action request signer timestamp ≡ ok next =
        λ other same.
          ap (λ (a : ApplyAction). a state action request signer timestamp) (sym same) ∙ e in
      elim (actions-cases name supported) [
        | inl same ↦
            payment_instruction-IsCounted which state action request signer timestamp h
              (runs _ same)
        | inr (inl same) ↦
            refund_instruction-IsCounted which state action request signer timestamp h (runs _ same)
        | inr (inr (inl same)) ↦
            delegate-IsCounted which state action request signer timestamp h (runs _ same)
        | inr (inr (inr (inl same))) ↦
            declare-IsCounted big laws Role.payer Counter.sent_payment which state action request
              signer timestamp h (runs _ same)
        | inr (inr (inr (inr (inl same)))) ↦
            declare-IsCounted big laws Role.payee Counter.sent_refund which state action request
              signer timestamp h (runs _ same)
        | inr (inr (inr (inr (inr (inl same))))) ↦
            declare-IsCounted big laws Role.payee Counter.received_payment which state action
              request signer timestamp h (runs _ same)
        | inr (inr (inr (inr (inr (inr same))))) ↦
            declare-IsCounted big laws Role.payer Counter.received_refund which state action request
              signer timestamp h (runs _ same)
      ]

create-Uncounted : Uncounted "create"
create-Uncounted Counter.sent_payment = refl
create-Uncounted Counter.sent_refund = refl
create-Uncounted Counter.received_payment = refl
create-Uncounted Counter.received_refund = refl

-- A new state holds zero in each counter and its creation as its one event.
started-IsCounted :
    (which : Counter) (state : ExtensionState) (e : ExtensionEvent)
    → counter which state.values ≡ some (text "0")
    → state.events ≡ e ∷ []
    → e.name ≡ "create"
    → IsCounted which state
unfolding declared_total amount_value is_valid_amount
started-IsCounted which state e held events name = record {
  held = text "0";
  counted = held;
  digits = (refl, refl);
  total =
      let silent : amount_of which e ≡ 0 = rw name (rw (create-Uncounted which) refl) in
      sym (ap (declared_total which) events ∙ omega (arith, silent));
}

zero_counters :
    (which : Counter) (v : ExtensionValues)
    → v.sent_payment_amount ≡ some (text "0")
    → v.sent_refund_amount ≡ some (text "0")
    → v.received_payment_amount ≡ some (text "0")
    → v.received_refund_amount ≡ some (text "0")
    → counter which v ≡ some (text "0")
zero_counters which v a b c d = ground arith

-- A new declarative payment network starts with each counter at a valid amount, zero, the sum of no
-- declarations.
pub creation-IsCounted :
    (which : Counter) (action : ExtensionAction) (timestamp : ℕ) {next : ExtensionState}
    → declarative_creation action timestamp ≡ ok next
    → IsCounted which next
unfolding declarative_creation
creation-IsCounted which action timestamp {next} e =
    let (generic, made, h₁) = >>=-eq-ok (abstract_creation _ action) _ e in
    rw (ok-inj h₁)
      (started-IsCounted which _ _ (zero_counters which _ refl refl refl refl) refl refl)
