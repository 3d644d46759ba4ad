-- ===== src/AdvancedLogic/Declarative/Counters/Silent.antt =====
-- The counters under the actions of declarative.ts that declare nothing: instructions and
-- delegates.
use request_network.Base.{
  ℕ, ◌≡◌, inl, inr, refl, ◌∙◌, String, str_eq, Option, some, ok, arith, is_some, false, >>=-eq-ok,
  throw_if, Bool-cases,
}
use request_network.Types.{
  Json, Identity, ExtensionAction, ExtensionEvent, ExtensionState, ExtensionValues, Role, Request,
  given_json,
}
use request_network.Identity.{are_equal_identities}
use request_network.AdvancedLogic.Extension.{read_parameters}
use request_network.AdvancedLogic.Extension.Laws.{ok-inj}
use request_network.AdvancedLogic.Declarative.{
  check_identities, push_event, Counter, counter, apply_add_payment_instruction,
  apply_add_refund_instruction, apply_add_delegate,
}
use request_network.AdvancedLogic.Declarative.Counters.{amount_of, IsCounted, IsCounted-snoc}
use request_network.AdvancedLogic.Declarative.Declarations.{counter_event}

-- A name that no counter counts.
abbrev pub Uncounted : String → Type 0
Uncounted name = (which : Counter) → str_eq name (counter_event which) ≡ false

abbrev SameCounters : ExtensionValues → ExtensionValues → Type 0
SameCounters v w = (which : Counter) → counter which w ≡ counter which v

-- An event that no counter counts, with values that leave the counters alone.
push_event-IsCounted :
    (which : Counter) (state : ExtensionState) (values : ExtensionValues) (name : String)
    (p : ExtensionValues) (timestamp : ℕ) (signer : Identity)
    → SameCounters state.values values
    → Uncounted name
    → IsCounted which state
    → IsCounted which (push_event (record state { values = values }) name p timestamp signer)
push_event-IsCounted which state values name p timestamp signer same uncounted h =
    let event : ExtensionEvent = record {
      name = name;
      parameters = p;
      timestamp = timestamp;
      sender = some signer;
    } in
    let silent : amount_of which event ≡ 0 = rw (uncounted which) refl in
    IsCounted-snoc which state
      (push_event (record state { values = values }) name p timestamp signer) event h.held h refl
      (same which ∙ h.counted) h.digits (omega (arith, silent))

instruction-Uncounted : Uncounted "addPaymentInstruction"
instruction-Uncounted Counter.sent_payment = refl
instruction-Uncounted Counter.sent_refund = refl
instruction-Uncounted Counter.received_payment = refl
instruction-Uncounted Counter.received_refund = refl

refund-Uncounted : Uncounted "addRefundInstruction"
refund-Uncounted Counter.sent_payment = refl
refund-Uncounted Counter.sent_refund = refl
refund-Uncounted Counter.received_payment = refl
refund-Uncounted Counter.received_refund = refl

delegate-Uncounted : Uncounted "addDelegate"
delegate-Uncounted Counter.sent_payment = refl
delegate-Uncounted Counter.sent_refund = refl
delegate-Uncounted Counter.received_payment = refl
delegate-Uncounted Counter.received_refund = refl

payment_info_same :
    (v : ExtensionValues) (j : Option Json) → SameCounters v (record v { payment_info = j })
payment_info_same v j which = ground arith

refund_info_same :
    (v : ExtensionValues) (j : Option Json) → SameCounters v (record v { refund_info = j })
refund_info_same v j which = ground arith

payee_delegate_same :
    (v : ExtensionValues) (j : Option Identity) → SameCounters v (record v { payee_delegate = j })
payee_delegate_same v j which = ground arith

payer_delegate_same :
    (v : ExtensionValues) (j : Option Identity) → SameCounters v (record v { payer_delegate = j })
payer_delegate_same v j which = ground arith

module _ (which : Counter) (state : ExtensionState) (action : ExtensionAction) (request : Request)
    (signer : Identity) (timestamp : ℕ) {next : ExtensionState} where
  pub payment_instruction-IsCounted :
      IsCounted which state
      → apply_add_payment_instruction state action request signer timestamp ≡ ok next
      → IsCounted which next
  unfolding apply_add_payment_instruction
  payment_instruction-IsCounted h e =
      let (_, fresh, h₁) = >>=-eq-ok (throw_if (given_json state.values.payment_info) _) _ e in
      let (_, speaks, h₂) = >>=-eq-ok (check_identities state request signer Role.payee) _ h₁ in
      let (p, parameters, h₃) = >>=-eq-ok (read_parameters action "paymentInfo") _ h₂ in
      rw (ok-inj h₃) (
        push_event-IsCounted which state _ "addPaymentInstruction" _ timestamp signer
          (payment_info_same state.values p.payment_info) instruction-Uncounted h)

  pub refund_instruction-IsCounted :
      IsCounted which state
      → apply_add_refund_instruction state action request signer timestamp ≡ ok next
      → IsCounted which next
  unfolding apply_add_refund_instruction
  refund_instruction-IsCounted h e =
      let (_, fresh, h₁) = >>=-eq-ok (throw_if (given_json state.values.refund_info) _) _ e in
      let (_, speaks, h₂) = >>=-eq-ok (check_identities state request signer Role.payer) _ h₁ in
      let (p, parameters, h₃) = >>=-eq-ok (read_parameters action "refundInfo") _ h₂ in
      rw (ok-inj h₃) (
        push_event-IsCounted which state _ "addRefundInstruction" _ timestamp signer
          (refund_info_same state.values p.refund_info) refund-Uncounted h)

  pub delegate-IsCounted :
      IsCounted which state
      → apply_add_delegate state action request signer timestamp ≡ ok next
      → IsCounted which next
  unfolding apply_add_delegate
  delegate-IsCounted h e = elim (Bool-cases (are_equal_identities (some signer) request.payee)) [
    | inl payee ↦
        let (_, fresh, h₁) =
          >>=-eq-ok
            (throw_if (is_some state.values.payee_delegate) "The payeeDelegate is already assigned")
            _ (simp payee at e) in
        let (p, parameters, h₂) = >>=-eq-ok (read_parameters action "delegate") _ h₁ in
        rw (ok-inj h₂) (
          push_event-IsCounted which state _ "addDelegate" _ timestamp signer
            (payee_delegate_same state.values p.delegate) delegate-Uncounted h)
    | inr not_payee ↦ elim (Bool-cases (are_equal_identities (some signer) request.payer)) [
      | inl payer ↦
          let (_, fresh, h₁) =
            >>=-eq-ok
              (throw_if (is_some state.values.payer_delegate)
                "The payerDelegate is already assigned")
              _ (simp (not_payee, payer) at e) in
          let (p, parameters, h₂) = >>=-eq-ok (read_parameters action "delegate") _ h₁ in
          rw (ok-inj h₂) (
            push_event-IsCounted which state _ "addDelegate" _ timestamp signer
              (payer_delegate_same state.values p.delegate) delegate-Uncounted h)
      | inr stranger ↦ ground arith
    ]
  ]
