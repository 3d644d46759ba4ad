-- ===== src/RequestLogic/Effect/Changed.antt =====
-- The copy of a request on which an action is recorded, and its changes (packages/request-
-- logic/src/actions/).
use request_network.Base.{ℕ, ◌≡◌, inl, inr, [], ◌∷◌, ◌++◌, ok, arith, Option-cases, ap, ◌∙◌, sym}
use request_network.Types.{Identity, Amount, RequestState, Action, Event, Request}
use request_network.RequestLogic.Library.{Library}
use request_network.RequestLogic.Role.{get_role_in_request}
use request_network.RequestLogic.Action.{get_signer_identity_from_action}
use request_network.RequestLogic.Checks.{push_extensions_data}
use request_network.RequestLogic.Actions.Common.{record_action}
use request_network.RequestLogic.Effect.{
  Allowed, Amounts, Keeps, Records, RecordsDelta, Effect, appended,
}

record_action-Keeps : (a : Action) (e : Event) (r : Request) → Keeps r (record_action a e r)
unfolding record_action
record_action-Keeps a e r = elim (Option-cases a.content.parameters.extensions_data) [
  | inl missing ↦ ground arith
  | inr (l, given) ↦ ground arith
]

record_action_fields :
    (a : Action) (e : Event) (r : Request)
    → let r' = record_action a e r in
      (r'.state ≡ r.state)
      × (r'.expected_amount ≡ r.expected_amount)
      × (r'.events ≡ r.events ++ e ∷ [])
      × (r'.extensions_data ≡ appended r.extensions_data a.content.parameters.extensions_data)
unfolding record_action push_extensions_data
record_action_fields a e r = elim (Option-cases a.content.parameters.extensions_data) [
  | inl missing ↦ ground arith
  | inr (l, given) ↦ elim (Option-cases r.extensions_data) [
    | inl empty ↦ ground arith
    | inr (old, held) ↦ ground arith
  ]
]

-- The effect of a copy of the request on which the action has been recorded, from the state and
-- the amount that the copy is given.
module _ {N : Type 0} (lib : Library N) (action : Action) (time : ℕ) (r : Request) (s : Identity)
    (e : Event) (state : RequestState) (amount : Amount) where
  unfoldable pub changed : Request
  changed =
      let copied = record_action action e r in
      record copied { state = state; expected_amount = amount }

  pub changed-Effect :
      get_signer_identity_from_action lib action ≡ ok s
      → Allowed action.content.name (get_role_in_request s r) r.state state
      → Amounts lib action.content.name action.content.parameters.delta_amount r.expected_amount
          amount
      → Records action time s e
      → RecordsDelta action.content.name action.content.parameters.delta_amount e
      → Effect lib action time r changed
  unfolding changed
  changed-Effect recovered allowed amounts recorded delta =
      let k : Keeps r (record_action action e r) = record_action-Keeps action e r in
      record {
        signer = s;
        recovered = recovered;
        allowed = allowed;
        amounts = amounts;
        kept = record {
          version = k.version;
          request_id = k.request_id;
          creator = k.creator;
          currency = k.currency;
          payee = k.payee;
          payer = k.payer;
          extensions = k.extensions;
          timestamp = k.timestamp;
          nonce = k.nonce;
        };
        event = e;
        events = (record_action_fields action e r).2;
        recorded = recorded;
        delta = delta;
        extensions_data = (record_action_fields action e r).3;
      }

  -- The three ways in which the actions make that copy.
  pub changed_before :
      amount ≡ r.expected_amount → record_action action e (record r { state = state }) ≡ changed
  unfolding changed record_action push_extensions_data
  changed_before same = elim (Option-cases action.content.parameters.extensions_data) [
    | inl missing ↦ ground arith
    | inr (l, given) ↦ ground arith
  ]

  pub changed_state :
      amount ≡ r.expected_amount
      → let copied : Request = record_action action e r in record copied { state = state } ≡ changed
  unfolding changed
  changed_state same =
      let copied : Request = record_action action e r in
      ap
        (λ (x : Amount).
          let c : Request = copied in record c { state = state; expected_amount = x })
        ((record_action_fields action e r).1 ∙ sym same)

  pub changed_amount :
      state ≡ r.state
      → let copied : Request = record_action action e r in
        record copied { expected_amount = amount } ≡ changed
  unfolding changed
  changed_amount same =
      let copied : Request = record_action action e r in
      ap
        (λ (x : RequestState).
          let c : Request = copied in record c { state = x; expected_amount = amount })
        ((record_action_fields action e r).0 ∙ sym same)

  pub changed_neither :
      state ≡ r.state → amount ≡ r.expected_amount → record_action action e r ≡ changed
  unfolding changed
  changed_neither same_state same_amount =
      let copied : Request = record_action action e r in
      let p : copied.state ≡ state = (record_action_fields action e r).0 ∙ sym same_state in
      let q : copied.expected_amount ≡ amount =
        (record_action_fields action e r).1 ∙ sym same_amount in
      λ i. let c : Request = copied in record c { state = p i; expected_amount = q i }
