-- ===== src/Identity/Laws.antt =====
-- Properties of `areEqualIdentities` of packages/utils/src/identity.ts.
use request_network.Base.{◌≡◌, refl, ◌↔◌, sym, ◌∙◌, true, eq_iff, arith}
use request_network.Types.{IdentityType, ethereum_address, ethereum_smart_contract, other, Identity}
use request_network.Identity.{same_type, normalize_identity_value, same_identity}

pub same_type_iff : (a b : IdentityType) → (same_type a b ≡ true) ↔ (a ≡ b)
unfolding same_type
same_type_iff ethereum_address ethereum_address = ground arith
same_type_iff ethereum_smart_contract ethereum_smart_contract = ground arith
same_type_iff (other a) (other b) = ground (arith, eq_iff a b)
same_type_iff _ _ = ground arith

-- Two identities are the same when their types are equal and their values agree up to case.
pub same_identity_iff :
    (a b : Identity)
    → (same_identity a b ≡ true)
      ↔ ((a.type ≡ b.type) × (normalize_identity_value a.value ≡ normalize_identity_value b.value))
unfolding same_identity
same_identity_iff a b = ground (
  arith,
  same_type_iff a.type b.type,
  eq_iff (normalize_identity_value a.value) (normalize_identity_value b.value),
)

pub same_identity_refl : (a : Identity) → same_identity a a ≡ true
same_identity_refl a = (same_identity_iff a a).1 (refl, refl)

pub same_identity_sym : (a b : Identity) → same_identity a b ≡ true → same_identity b a ≡ true
same_identity_sym a b h =
    let (t, v) = (same_identity_iff a b).0 h in (same_identity_iff b a).1 (sym t, sym v)

pub same_identity_trans :
    (a b c : Identity)
    → same_identity a b ≡ true
    → same_identity b c ≡ true
    → same_identity a c ≡ true
same_identity_trans a b c h k =
    let (t, v) = (same_identity_iff a b).0 h in
    let (u, w) = (same_identity_iff b c).0 k in (same_identity_iff a c).1 (t ∙ u, v ∙ w)
