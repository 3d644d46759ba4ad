-- ===== src/RequestLogic/Applied.antt =====
-- What `applyActionToRequest` of requestLogicCore.ts does when it returns, step by step.
use request_network.Base.{
  ◌≡◌, ℕ, Option, none, some, ok, arith, >>=-eq-ok, not, throw_if, Option-cases, inl, inr,
  Result-cases,
}
use request_network.Types.{ActionName, Action, Request, ExtensionStates}
use request_network.RequestLogic.Library.{Library}
use request_network.RequestLogic.Action.{
  is_action_version_supported, get_signer_identity_from_action,
}
use request_network.RequestLogic.Checks.{check_request}
use request_network.RequestLogic.Actions.Create.{create_request}
use request_network.RequestLogic.Core.{
  AdvancedLogic, reduce_extensions, apply_extensions, update_request, apply_core,
  apply_action_to_request,
}
use request_network.RequestLogic.Creation.{Creates, create_request-Creates}
use request_network.RequestLogic.Effect.{Effect}
use request_network.RequestLogic.Effect.Updates.{update_request-Effect}

-- Two requests that differ in the states of their extensions at most.
abbrev pub SameCore : Request → Request → Type 0
SameCore r r' = (states : ExtensionStates) × (r' ≡ record r { extensions = states })

module _ {N : Type 0} (lib : Library N) (advanced : Option AdvancedLogic) (action : Action)
    (time : ℕ) where
  apply_extensions-SameCore :
      (advanced' : Option AdvancedLogic) (r : Request) {r' : Request}
      → apply_extensions lib advanced' action time r ≡ ok r'
      → SameCore r r'
  unfolding apply_extensions
  apply_extensions-SameCore none r h = (r.extensions, ground arith)
  apply_extensions-SameCore (some f) r h =
      elim (Option-cases action.content.parameters.extensions_data) [
        | inl missing ↦ (r.extensions, ground arith)
        | inr (l, given) ↦
            elim (Result-cases (
              reduce_extensions f l r (get_signer_identity_from_action lib action) time
                r.extensions)) [
                  | inl (states, e) ↦ (states, ground arith)
                  | inr (m, e) ↦ ground arith
                ]
      ]

  apply_core-update :
      (r : Request) {m : Request}
      → apply_core lib (some r) action time ≡ ok m
      → (check_request r ≡ ok tt) × (update_request lib action time r ≡ ok m)
  unfolding apply_core
  apply_core-update r h = ground arith

  apply_core-creation :
      {m : Request}
      → apply_core lib none action time ≡ ok m
      → (action.content.name ≡ ActionName.create) × (create_request lib action time ≡ ok m)
  unfolding apply_core
  apply_core-creation h = ground arith

  pub apply_update :
      (r : Request) {r' : Request}
      → apply_action_to_request lib advanced (some r) action time ≡ ok r'
      → (m : Request) × (check_request r ≡ ok tt) × Effect lib action time r m × SameCore m r'
  unfolding apply_action_to_request
  apply_update r h =
      let (_, supported, h₁) =
        >>=-eq-ok (throw_if (not (is_action_version_supported lib action)) _) _ h in
      let (m, core, h₂) = >>=-eq-ok (apply_core lib (some r) action time) _ h₁ in
      let (checked, updated) = apply_core-update r core in
      (
        m,
        checked,
        update_request-Effect lib action time r updated,
        apply_extensions-SameCore advanced m h₂,
      )

  pub apply_creation :
      {r' : Request}
      → apply_action_to_request lib advanced none action time ≡ ok r'
      → (m : Request) × (action.content.name ≡ ActionName.create)
        × Creates lib action time m
        × SameCore m r'
  unfolding apply_action_to_request
  apply_creation h =
      let (_, supported, h₁) =
        >>=-eq-ok (throw_if (not (is_action_version_supported lib action)) _) _ h in
      let (m, core, h₂) = >>=-eq-ok (apply_core lib none action time) _ h₁ in
      let (name, created) = apply_core-creation core in
      (
        m,
        name,
        create_request-Creates lib action time created,
        apply_extensions-SameCore advanced m h₂,
      )
