-- ===== src/AdvancedLogic/AddressBased/Laws.antt =====
-- Properties of `applyAddPaymentAddress` and `applyAddRefundAddress` of address-based.ts.
use request_network.Base.{
  ℕ, ◌≡◌, refl, some, ok, is_some, not, true, false, given, >>=-eq-ok, throw_if, throw_if-ok,
  throw_if-not-ok,
}
use request_network.Types.{Identity, ExtensionAction, ExtensionState, ExtensionValues, Request}
use request_network.Identity.{are_equal_identities}
use request_network.AdvancedLogic.Extension.{read_parameters}
use request_network.AdvancedLogic.AddressBased.{
  AddressRules, check_address, payment_address_error, apply_add_payment_address,
  apply_add_refund_address,
}
use request_network.AdvancedLogic.Extension.Laws.{ok-inj, read_parameters-ok}

module _ (rules : AddressRules) (state : ExtensionState) (action : ExtensionAction)
    (request : Request) (signer : Identity) (timestamp : ℕ) {next : ExtensionState} where
  -- A payment address is set only where none is, by the payee, to an address that passed the check of
  -- the network; the refund address stays.
  pub apply_add_payment_address-ok :
      apply_add_payment_address rules state action request signer timestamp ≡ ok next
      → (p : ExtensionValues) × (action.parameters ≡ some p)
        × (check_address rules p.payment_address payment_address_error ≡ ok tt)
        × (given state.values.payment_address ≡ false)
        × (are_equal_identities (some signer) request.payee ≡ true)
        × (next.values.payment_address ≡ p.payment_address)
        × (next.values.refund_address ≡ state.values.refund_address)
  unfolding apply_add_payment_address
  apply_add_payment_address-ok h =
      let (p, parameters, h₁) = >>=-eq-ok (read_parameters action "paymentAddress") _ h in
      let (_, valid, h₂) =
        >>=-eq-ok (check_address rules p.payment_address payment_address_error) _ h₁ in
      let (_, fresh, h₃) = >>=-eq-ok (throw_if (given state.values.payment_address) _) _ h₂ in
      let (_, party, h₄) = >>=-eq-ok (throw_if (not (is_some request.payee)) _) _ h₃ in
      let (_, payee, h₅) =
        >>=-eq-ok (throw_if (not (are_equal_identities (some signer) request.payee)) _) _ h₄ in
      rw (ok-inj h₅) (
        p,
        read_parameters-ok action "paymentAddress" parameters,
        valid,
        throw_if-ok _ _ fresh,
        throw_if-not-ok _ _ payee,
        refl,
        refl,
      )

  -- A refund address is set only where none is, by the payer, to an address that passed the check of
  -- the network; the payment address stays.
  pub apply_add_refund_address-ok :
      apply_add_refund_address rules state action request signer timestamp ≡ ok next
      → (p : ExtensionValues) × (action.parameters ≡ some p)
        × (check_address rules p.refund_address (λ address. "refundAddress is not a valid address")
            ≡ ok tt)
        × (given state.values.refund_address ≡ false)
        × (are_equal_identities (some signer) request.payer ≡ true)
        × (next.values.refund_address ≡ p.refund_address)
        × (next.values.payment_address ≡ state.values.payment_address)
  unfolding apply_add_refund_address
  apply_add_refund_address-ok h =
      let (p, parameters, h₁) = >>=-eq-ok (read_parameters action "refundAddress") _ h in
      let (_, valid, h₂) = >>=-eq-ok (check_address rules p.refund_address _) _ h₁ in
      let (_, fresh, h₃) = >>=-eq-ok (throw_if (given state.values.refund_address) _) _ h₂ in
      let (_, party, h₄) = >>=-eq-ok (throw_if (not (is_some request.payer)) _) _ h₃ in
      let (_, payer, h₅) =
        >>=-eq-ok (throw_if (not (are_equal_identities (some signer) request.payer)) _) _ h₄ in
      rw (ok-inj h₅) (
        p,
        read_parameters-ok action "refundAddress" parameters,
        valid,
        throw_if-ok _ _ fresh,
        throw_if-not-ok _ _ payer,
        refl,
        refl,
      )
