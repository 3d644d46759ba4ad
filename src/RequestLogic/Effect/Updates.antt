-- ===== src/RequestLogic/Effect/Updates.antt =====
-- The effect of each action of packages/request-logic/src/actions/ on a request.
use request_network.Base.{ℕ, ◌≡◌, refl, ◌⊎◌, inl, inr, ◌≢◌, ok, arith, sym}
use request_network.Types.{Identity, ActionName, RequestState, Role, Action, Request}
use request_network.RequestLogic.Library.{Library}
use request_network.RequestLogic.Action.{get_signer_identity_from_action}
use request_network.RequestLogic.Role.{get_role_in_request}
use request_network.RequestLogic.Actions.Common.{generate_event, generate_delta_event}
use request_network.RequestLogic.Core.{update_request}
use request_network.RequestLogic.Inversion.{
  Signed, apply_accept-ok, apply_cancel-ok, apply_increase-ok, apply_reduce-ok,
  apply_add_stakeholders-ok, apply_add_extensions_data-ok,
}
use request_network.RequestLogic.Effect.{Records, Effect}
use request_network.RequestLogic.Effect.Changed.{
  changed-Effect, changed_before, changed_state, changed_amount, changed_neither,
}

generate_event-Records :
    (name : ActionName) (action : Action) (time : ℕ) (s : Identity)
    → action.content.name ≡ name
    → Records action time s (generate_event name action time s)
unfolding generate_event
generate_event-Records name action time s e = record {
  name = sym e;
  action_signer = refl;
  timestamp = refl;
}

generate_delta_event-Records :
    (name : ActionName) (action : Action) (time : ℕ) (s : Identity)
    → action.content.name ≡ name
    → Records action time s (generate_delta_event name action time s)
unfolding generate_delta_event
generate_delta_event-Records name action time s e = record {
  name = sym e;
  action_signer = refl;
  timestamp = refl;
}

module _ {N : Type 0} (lib : Library N) (action : Action) (r : Request) where
  -- Either of the two cases of a cancellation has a signer with its role.
  abbrev CancelSigned : Identity → Type 0
  CancelSigned s =
      Signed lib action r Role.payee s × (r.state ≢ RequestState.canceled)
      ⊎ Signed lib action r Role.payer s × (r.state ≡ RequestState.created)

  cancel_recovered :
      (s : Identity) → CancelSigned s → get_signer_identity_from_action lib action ≡ ok s
  cancel_recovered s (inl (signed, open_state)) = signed.recovered
  cancel_recovered s (inr (signed, created)) = signed.recovered

  cancel_role :
      (s : Identity)
      → CancelSigned s
      → (get_role_in_request s r ≡ Role.payee) × (r.state ≢ RequestState.canceled)
        ⊎ (get_role_in_request s r ≡ Role.payer) × (r.state ≡ RequestState.created)
  cancel_role s (inl (signed, open_state)) = inl (signed.has_role, open_state)
  cancel_role s (inr (signed, created)) = inr (signed.has_role, created)

module _ {N : Type 0} (lib : Library N) (action : Action) (time : ℕ) (r : Request)
    {r' : Request} where
  accept-Effect :
      action.content.name ≡ ActionName.accept
      → update_request lib action time r ≡ ok r'
      → Effect lib action time r r'
  unfolding update_request
  accept-Effect e h =
      let (s, signed, created, same) =
        apply_accept-ok lib action time r {request' = r'} (ground arith) in
      let event = generate_event ActionName.accept action time s in
      rw
        (
          same,
          changed_before lib action time r s event RequestState.accepted r.expected_amount refl,
        )
        (changed-Effect lib action time r s event RequestState.accepted r.expected_amount
          signed.recovered (simp e (signed.has_role, created, refl)) (simp e)
          (generate_event-Records _ action time s e) (simp e tt))

  cancel-Effect :
      action.content.name ≡ ActionName.cancel
      → update_request lib action time r ≡ ok r'
      → Effect lib action time r r'
  unfolding update_request
  cancel-Effect e h =
      let (s, signed, same) = apply_cancel-ok lib action time r {request' = r'} (ground arith) in
      let event = generate_event ActionName.cancel action time s in
      rw
        (same, changed_state lib action time r s event RequestState.canceled r.expected_amount refl)
        (changed-Effect lib action time r s event RequestState.canceled r.expected_amount
          (cancel_recovered lib action r s signed)
          (simp e (cancel_role lib action r s signed, refl)) (simp e)
          (generate_event-Records _ action time s e) (simp e tt))

  increase-Effect :
      action.content.name ≡ ActionName.increase_expected_amount
      → update_request lib action time r ≡ ok r'
      → Effect lib action time r r'
  unfolding update_request generate_delta_event
  increase-Effect e h =
      let (s, d, n, signed, open_state, given, valid, sum, same) =
        apply_increase-ok lib action time r {request' = r'} (ground arith) in
      let event = generate_delta_event ActionName.increase_expected_amount action time s in
      rw (same, changed_amount lib action time r s event r.state n refl)
        (changed-Effect lib action time r s event r.state n signed.recovered
          (simp e (signed.has_role, open_state, refl)) (simp e (d, given, valid, sum))
          (generate_delta_event-Records _ action time s e) (simp e))

  reduce-Effect :
      action.content.name ≡ ActionName.reduce_expected_amount
      → update_request lib action time r ≡ ok r'
      → Effect lib action time r r'
  unfolding update_request generate_delta_event
  reduce-Effect e h =
      let (s, d, n, signed, open_state, given, valid, sum, same) =
        apply_reduce-ok lib action time r {request' = r'} (ground arith) in
      let event = generate_delta_event ActionName.reduce_expected_amount action time s in
      rw (same, changed_amount lib action time r s event r.state n refl)
        (changed-Effect lib action time r s event r.state n signed.recovered
          (simp e (signed.has_role, open_state, refl)) (simp e (d, given, valid, sum))
          (generate_delta_event-Records _ action time s e) (simp e))

  add_stakeholders-Effect :
      action.content.name ≡ ActionName.add_stakeholders
      → update_request lib action time r ≡ ok r'
      → Effect lib action time r r'
  unfolding update_request
  add_stakeholders-Effect e h =
      let (s, recovered, same) =
        apply_add_stakeholders-ok lib action time r {request' = r'} (ground arith) in
      let event = generate_event ActionName.add_stakeholders action time s in
      rw (same, changed_neither lib action time r s event r.state r.expected_amount refl refl)
        (changed-Effect lib action time r s event r.state r.expected_amount recovered (simp e refl)
          (simp e) (generate_event-Records _ action time s e) (simp e tt))

  add_extensions_data-Effect :
      action.content.name ≡ ActionName.add_extensions_data
      → update_request lib action time r ≡ ok r'
      → Effect lib action time r r'
  unfolding update_request
  add_extensions_data-Effect e h =
      let (s, recovered, same) =
        apply_add_extensions_data-ok lib action time r {request' = r'} (ground arith) in
      let event = generate_event ActionName.add_extensions_data action time s in
      rw (same, changed_neither lib action time r s event r.state r.expected_amount refl refl)
        (changed-Effect lib action time r s event r.state r.expected_amount recovered (simp e refl)
          (simp e) (generate_event-Records _ action time s e) (simp e tt))

  by_name :
      (name : ActionName)
      → action.content.name ≡ name
      → update_request lib action time r ≡ ok r'
      → Effect lib action time r r'
  unfolding update_request
  by_name ActionName.accept e h = accept-Effect e h
  by_name ActionName.cancel e h = cancel-Effect e h
  by_name ActionName.increase_expected_amount e h = increase-Effect e h
  by_name ActionName.reduce_expected_amount e h = reduce-Effect e h
  by_name ActionName.add_stakeholders e h = add_stakeholders-Effect e h
  by_name ActionName.add_extensions_data e h = add_extensions_data-Effect e h
  by_name ActionName.broadcast e h = ground arith
  by_name ActionName.create e h = ground arith

  -- An update that succeeds is signed by an identity that may do it, appends one event that records
  -- the action, its signer and its time, concatenates the extensions data of the action, and changes
  -- of the rest only the state, as `Allowed` says, and the amount, as `Amounts` says.
  pub update_request-Effect : update_request lib action time r ≡ ok r' → Effect lib action time r r'
  update_request-Effect h = by_name action.content.name refl h
