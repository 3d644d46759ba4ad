-- ===== src/RequestLogic/Refusals.antt =====
-- Requests that `checkRequest` of packages/request-logic/src/request.ts refuses.
use request_network.Base.{
  true, ◌≡◌, ◌≢◌, ◌⊎◌, inl, inr, ℕ, String, Option, some, ok, err, arith, Result-cases,
}
use request_network.Types.{Identity, ethereum_address, Action, Request}
use request_network.RequestLogic.Library.{Library}
use request_network.RequestLogic.Checks.{is_foreign, check_request}
use request_network.RequestLogic.Core.{AdvancedLogic, apply_action_to_request}
use request_network.RequestLogic.Applied.{apply_update}

-- A party of the request that is no Ethereum address.
abbrev pub HasForeignParty : Request → Type 0
HasForeignParty r =
    (id : Identity) × (id.type ≢ ethereum_address)
    × ((r.payee ≡ some id) ⊎ ((r.payer ≡ some id) ⊎ (r.creator ≡ some id)))

foreign_flag : (id : Identity) → id.type ≢ ethereum_address → is_foreign id ≡ true
foreign_flag id foreign = ground arith

check_request-foreign : (r : Request) → HasForeignParty r → check_request r ≢ ok tt
unfolding check_request
check_request-foreign r (id, foreign, inl e) = λ h. ground (arith, foreign_flag id foreign)
check_request-foreign r (id, foreign, inr (inl e)) = λ h. ground (arith, foreign_flag id foreign)
check_request-foreign r (id, foreign, inr (inr e)) = λ h. ground (arith, foreign_flag id foreign)

-- A request with a payee, a payer or a creator that is no Ethereum address takes no update: every
-- action on it is refused with an error, whoever signs it.
pub apply_action_to_request-foreign :
    {N : Type 0} (lib : Library N) (advanced : Option AdvancedLogic) (action : Action) (time : ℕ)
    (r : Request)
    → HasForeignParty r
    → (e : String) × (apply_action_to_request lib advanced (some r) action time ≡ err e)
apply_action_to_request-foreign lib advanced action time r foreign =
    elim (Result-cases (apply_action_to_request lib advanced (some r) action time)) [
      | inr refused ↦ refused
      | inl (r', applied) ↦
          let (m, checked, effect, same) = apply_update lib advanced action time r applied in
          absurd (check_request-foreign r foreign checked)
    ]
