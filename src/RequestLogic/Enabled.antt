-- ===== src/RequestLogic/Enabled.antt =====
-- When `applyActionToRequest` of requestLogicCore.ts does not throw on a request.
use request_network.Base.{
  ℕ, ◌≡◌, ◌≢◌, ◌⊎◌, ◌≤◌, inl, inr, refl, true, false, given, is_some, some, none, ok, arith,
  Result-cases,
}
use request_network.Types.{
  Identity, Amount, truthy_amount, ActionName, RequestState, Role, ActionParameters, Action,
  Request,
}
use request_network.Amount.{add_amount, reduce_amount}
use request_network.Amount.Decimal.{amount_value}
use request_network.Amount.Laws.{
  IsBigNumber, IsReadable, IsReadable-valid, add_amount_lem, reduce_amount_lem,
}
use request_network.Identity.{are_equal_identities}
use request_network.RequestLogic.Library.{Library}
use request_network.RequestLogic.Role.{get_role_in_request}
use request_network.RequestLogic.Action.{
  get_signer_identity_from_action, is_action_version_supported,
}
use request_network.RequestLogic.Checks.{check_request}
use request_network.RequestLogic.Actions.Accept.{apply_accept}
use request_network.RequestLogic.Actions.AddStakeholders.{apply_add_stakeholders}
use request_network.RequestLogic.Actions.Cancel.{apply_cancel}
use request_network.RequestLogic.Actions.IncreaseExpectedAmount.{
  increased_request, apply_increase_expected_amount,
}
use request_network.RequestLogic.Actions.ReduceExpectedAmount.{
  reduced_request, apply_reduce_expected_amount,
}
use request_network.RequestLogic.Core.{
  apply_core, apply_extensions, update_request, apply_action_to_request,
}

none_equal : (s : Identity) → are_equal_identities none (some s) ≡ false
unfolding are_equal_identities
none_equal s = refl

role_payer :
    (s : Identity) (r : Request) → get_role_in_request s r ≡ Role.payer → is_some r.payer ≡ true
unfolding get_role_in_request
role_payer s r h = ground (arith, none_equal s)

role_payee :
    (s : Identity) (r : Request) → get_role_in_request s r ≡ Role.payee → is_some r.payee ≡ true
unfolding get_role_in_request
role_payee s r h = ground (arith, none_equal s)

module _ {N : Type 0} (lib : Library N) (action : Action) (time : ℕ) (r : Request) (s : Identity)
    (id : given action.content.parameters.request_id ≡ true)
    (signed : get_signer_identity_from_action lib action ≡ ok s) where
  accept_enabled :
      get_role_in_request s r ≡ Role.payer
      → r.state ≡ RequestState.created
      → (r' : Request) × (apply_accept lib action time r ≡ ok r')
  unfolding apply_accept
  accept_enabled role state = elim (Result-cases (apply_accept lib action time r)) [
    | inl accepted ↦ accepted
    | inr (e, refused) ↦ ground (arith, role_payer s r role)
  ]

  cancel_enabled :
      (get_role_in_request s r ≡ Role.payee) × (r.state ≢ RequestState.canceled)
        ⊎ (get_role_in_request s r ≡ Role.payer) × (r.state ≡ RequestState.created)
      → (r' : Request) × (apply_cancel lib action time r ≡ ok r')
  unfolding apply_cancel
  cancel_enabled may = elim (Result-cases (apply_cancel lib action time r)) [
    | inl canceled ↦ canceled
    | inr (e, refused) ↦ ground arith
  ]

  module _ (d : Amount) (given_delta : action.content.parameters.delta_amount ≡ some d)
      (truthy : truthy_amount d ≡ true) (readable : IsReadable d) where
    increase_enabled :
        {a : Amount}
        → get_role_in_request s r ≡ Role.payer
        → r.state ≢ RequestState.canceled
        → add_amount lib.big r.expected_amount d ≡ ok a
        → (r' : Request) × (apply_increase_expected_amount lib action time r ≡ ok r')
    unfolding apply_increase_expected_amount increased_request
    increase_enabled role state sum =
        elim (Result-cases (apply_increase_expected_amount lib action time r)) [
          | inl increased ↦ increased
          | inr (e, refused) ↦ ground (arith, role_payer s r role, IsReadable-valid d readable)
        ]

    reduce_enabled :
        {a : Amount}
        → get_role_in_request s r ≡ Role.payee
        → r.state ≢ RequestState.canceled
        → reduce_amount lib.big r.expected_amount d ≡ ok a
        → (r' : Request) × (apply_reduce_expected_amount lib action time r ≡ ok r')
    unfolding apply_reduce_expected_amount reduced_request
    reduce_enabled role state sum =
        elim (Result-cases (apply_reduce_expected_amount lib action time r)) [
          | inl reduced ↦ reduced
          | inr (e, refused) ↦ ground (arith, role_payee s r role, IsReadable-valid d readable)
        ]

-- What a role may ask of a request, with the amount that the action gives.
abbrev pub CanDo : ActionName → Role → Request → ActionParameters → Type 0
CanDo ActionName.accept role r p = (role ≡ Role.payer) × (r.state ≡ RequestState.created)
CanDo ActionName.cancel role r p =
    (role ≡ Role.payee) × (r.state ≢ RequestState.canceled)
    ⊎ (role ≡ Role.payer) × (r.state ≡ RequestState.created)
CanDo ActionName.increase_expected_amount role r p =
    (role ≡ Role.payer)
    × (r.state ≢ RequestState.canceled)
    × ((d : Amount) × (p.delta_amount ≡ some d) × (truthy_amount d ≡ true) × IsReadable d)
CanDo ActionName.reduce_expected_amount role r p =
    (role ≡ Role.payee)
    × (r.state ≢ RequestState.canceled)
    × ((d : Amount) × (p.delta_amount ≡ some d)
        × (truthy_amount d ≡ true)
        × IsReadable d
        × (amount_value d ≤ amount_value r.expected_amount))
CanDo ActionName.add_stakeholders role r p = Unit
CanDo ActionName.add_extensions_data role r p = ⊥
CanDo ActionName.create role r p = ⊥
CanDo ActionName.broadcast role r p = ⊥

CanDo-update :
    (name : ActionName) (role : Role) (r : Request) (p : ActionParameters)
    → CanDo name role r p
    → name ≢ ActionName.create
CanDo-update ActionName.create role r p can = absurd can
CanDo-update _ role r p can = ground arith

module _ {N : Type 0} (lib : Library N) (laws : IsBigNumber lib.big) (action : Action) (time : ℕ)
    (r : Request) (s : Identity) where
  update_enabled :
      (name : ActionName)
      → action.content.name ≡ name
      → given action.content.parameters.request_id ≡ true
      → get_signer_identity_from_action lib action ≡ ok s
      → IsReadable r.expected_amount
      → CanDo name (get_role_in_request s r) r action.content.parameters
      → (r' : Request) × (update_request lib action time r ≡ ok r')
  unfolding update_request apply_add_stakeholders
  update_enabled ActionName.accept e id signed readable (role, state) =
      let (m, done) = accept_enabled lib action time r s id signed role state in (m, ground arith)
  update_enabled ActionName.cancel e id signed readable may =
      let (m, done) = cancel_enabled lib action time r s id signed may in (m, ground arith)
  update_enabled ActionName.increase_expected_amount e id signed readable
        (role, state, (d, g, t, rd)) =
      let (sum, added, _, _) = add_amount_lem laws r.expected_amount d readable rd in
      let (m, done) = increase_enabled lib action time r s id signed d g t rd role state added in
      (m, ground arith)
  update_enabled ActionName.reduce_expected_amount e id signed readable
        (role, state, (d, g, t, rd, le)) =
      let (rest, reduced, _, _) = reduce_amount_lem laws r.expected_amount d readable rd le in
      let (m, done) = reduce_enabled lib action time r s id signed d g t rd role state reduced in
      (m, ground arith)
  update_enabled ActionName.add_stakeholders e id signed readable can =
      elim (Result-cases (update_request lib action time r)) [
        | inl added ↦ added
        | inr (m, refused) ↦ ground arith
      ]
  update_enabled ActionName.add_extensions_data e id signed readable can = absurd can
  update_enabled ActionName.create e id signed readable can = absurd can
  update_enabled ActionName.broadcast e id signed readable can = absurd can

  core_enabled :
      {m : Request}
      → action.content.name ≢ ActionName.create
      → check_request r ≡ ok tt
      → update_request lib action time r ≡ ok m
      → apply_core lib (some r) action time ≡ ok m
  unfolding apply_core
  core_enabled name checked updated = ground arith

  -- What the life cycle allows is not refused: on a request that passes its check and whose amount is
  -- readable, the payer accepts what is created, the payee cancels what is not canceled, the payer
  -- cancels what is created, the payer increases the amount of what is not canceled and the payee
  -- reduces it by no more than there is, both by a readable amount that is not falsy, and anyone adds
  -- stakeholders. The action is of a supported version, names the request and has a signer, and no
  -- advanced logic is given.
  pub apply-CanDo :
      is_action_version_supported lib action ≡ true
      → check_request r ≡ ok tt
      → given action.content.parameters.request_id ≡ true
      → get_signer_identity_from_action lib action ≡ ok s
      → IsReadable r.expected_amount
      → CanDo action.content.name (get_role_in_request s r) r action.content.parameters
      → (r' : Request) × (apply_action_to_request lib none (some r) action time ≡ ok r')
  unfolding apply_action_to_request apply_extensions
  apply-CanDo version checked id signed readable can =
      let (m, updated) = update_enabled action.content.name refl id signed readable can in
      let core = core_enabled (CanDo-update _ _ r action.content.parameters can) checked updated in
      (m, rw (version, core) refl)
