-- ===== src/RequestLogic/Lifecycle.antt =====
-- The states of a request and who moves it between them (requestLogicCore.ts and actions/).
use request_network.Base.{◌≡◌, ◌⊎◌, ℕ, Option, some, ok, arith}
use request_network.Types.{Identity, Amount, ActionName, RequestState, Role, Action, Request}
use request_network.RequestLogic.Library.{Library}
use request_network.RequestLogic.Role.{get_role_in_request}
use request_network.RequestLogic.Action.{get_signer_identity_from_action}
use request_network.RequestLogic.Core.{AdvancedLogic, apply_action_to_request}
use request_network.RequestLogic.Effect.{Allowed, Amounts}
use request_network.RequestLogic.Applied.{apply_update}

-- On a canceled request nothing is allowed but to add stakeholders and extensions data.
canceled_only :
    (name : ActionName) (role : Role) (s s' : RequestState)
    → Allowed name role s s'
    → s ≡ RequestState.canceled
    → (s' ≡ RequestState.canceled)
      × ((name ≡ ActionName.add_stakeholders) ⊎ (name ≡ ActionName.add_extensions_data))
canceled_only ActionName.accept role s s' h e = ground arith
canceled_only name role s s' h e = ground arith

-- These two leave the amount alone.
amount_kept :
    {N : Type 0} (lib : Library N) (name : ActionName) (delta : Option Amount) (a a' : Amount)
    → (name ≡ ActionName.add_stakeholders) ⊎ (name ≡ ActionName.add_extensions_data)
    → Amounts lib name delta a a'
    → a' ≡ a
amount_kept lib ActionName.add_stakeholders delta a a' h k = k
amount_kept lib ActionName.add_extensions_data delta a a' h k = k
amount_kept lib ActionName.create delta a a' h k = ground arith
amount_kept lib _ delta a a' h k = ground arith

module _ {N : Type 0} (lib : Library N) (advanced : Option AdvancedLogic) (action : Action)
    (time : ℕ) (r : Request) {r' : Request} where
  -- An action that is applied to a request is signed by an identity whose role on the request may
  -- do this action in the state of the request, as `Allowed` lists it, and it leaves the state that
  -- `Allowed` gives: only the payer accepts, and only what is created; the payee cancels what is
  -- not canceled, the payer what is created; only the payer increases and only the payee reduces the
  -- amount, of what is not canceled; the other two actions leave the state alone.
  pub apply-Allowed :
      apply_action_to_request lib advanced (some r) action time ≡ ok r'
      → (signer : Identity) × (get_signer_identity_from_action lib action ≡ ok signer)
        × Allowed action.content.name (get_role_in_request signer r) r.state r'.state
  apply-Allowed h =
      let (m, checked, effect, (states, same)) = apply_update lib advanced action time r h in
      (effect.signer, effect.recovered, rw same effect.allowed)

  -- A canceled request stays canceled and keeps its expected amount, whatever action is applied,
  -- and the only actions that are applied to it add stakeholders or extensions data.
  pub apply_canceled :
      r.state ≡ RequestState.canceled
      → apply_action_to_request lib advanced (some r) action time ≡ ok r'
      → (r'.state ≡ RequestState.canceled)
        × (r'.expected_amount ≡ r.expected_amount)
        × ((action.content.name ≡ ActionName.add_stakeholders)
            ⊎ (action.content.name ≡ ActionName.add_extensions_data))
  apply_canceled canceled h =
      let (m, checked, effect, (states, same)) = apply_update lib advanced action time r h in
      let (state, name) =
        canceled_only action.content.name _ r.state m.state effect.allowed canceled in
      rw same (
        state,
        amount_kept lib action.content.name _ r.expected_amount m.expected_amount name
            effect.amounts,
        name,
      )
