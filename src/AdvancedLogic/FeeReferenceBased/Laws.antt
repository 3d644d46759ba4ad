-- ===== src/AdvancedLogic/FeeReferenceBased/Laws.antt =====
-- Properties of `applyAddFee` of fee-reference-based.ts.
use request_network.Base.{
  ℕ, ◌≡◌, refl, some, ok, is_some, not, true, false, given, >>=-eq-ok, throw_if, throw_if-ok,
  throw_if-not-ok,
}
use request_network.Types.{
  Identity, given_amount, ExtensionAction, ExtensionState, ExtensionValues, Request,
}
use request_network.Identity.{are_equal_identities}
use request_network.AdvancedLogic.Extension.{read_parameters}
use request_network.AdvancedLogic.Extension.Laws.{ok-inj, read_parameters-ok}
use request_network.AdvancedLogic.AddressBased.{AddressRules}
use request_network.AdvancedLogic.FeeReferenceBased.{
  check_fee_amount, check_fee_address, apply_add_fee,
}

module _ (rules : AddressRules) (state : ExtensionState) (action : ExtensionAction)
    (request : Request) (signer : Identity) (timestamp : ℕ) {next : ExtensionState} where
  -- A fee is set only where neither its address nor its amount is, by the payee; the address has
  -- passed the check of the network and the amount its own, and the addresses of the
  -- payment and of the refund stay.
  pub apply_add_fee-ok :
      apply_add_fee rules state action request signer timestamp ≡ ok next
      → (p : ExtensionValues) × (action.parameters ≡ some p)
        × (check_fee_address rules p.fee_address ≡ ok tt)
        × (check_fee_amount p.fee_amount ≡ ok tt)
        × (given state.values.fee_address ≡ false)
        × (given_amount state.values.fee_amount ≡ false)
        × (are_equal_identities (some signer) request.payee ≡ true)
        × (next.values.fee_address ≡ p.fee_address)
        × (next.values.fee_amount ≡ p.fee_amount)
        × (next.values.payment_address ≡ state.values.payment_address)
        × (next.values.refund_address ≡ state.values.refund_address)
  unfolding apply_add_fee
  apply_add_fee-ok h =
      let (p, parameters, h₁) = >>=-eq-ok (read_parameters action "feeAddress") _ h in
      let (_, address, h₂) = >>=-eq-ok (check_fee_address rules p.fee_address) _ h₁ in
      let (_, no_address, h₃) = >>=-eq-ok (throw_if (given state.values.fee_address) _) _ h₂ in
      let (_, amount, h₄) = >>=-eq-ok (check_fee_amount p.fee_amount) _ h₃ in
      let (_, no_amount, h₅) = >>=-eq-ok (throw_if (given_amount state.values.fee_amount) _) _ h₄ in
      let (_, party, h₆) = >>=-eq-ok (throw_if (not (is_some request.payee)) _) _ h₅ in
      let (_, payee, h₇) =
        >>=-eq-ok (throw_if (not (are_equal_identities (some signer) request.payee)) _) _ h₆ in
      rw (ok-inj h₇) (
        p,
        read_parameters-ok action "feeAddress" parameters,
        address,
        amount,
        throw_if-ok _ _ no_address,
        throw_if-ok _ _ no_amount,
        throw_if-not-ok _ _ payee,
        refl,
        refl,
        refl,
        refl,
      )
