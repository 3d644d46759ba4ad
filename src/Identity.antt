-- ===== src/Identity.antt =====
-- Identities: packages/utils/src/identity.ts.
pub mod Laws
use request_network.Base.{
  ℕ, Bool, true, false, not, ◌&&◌, ◌||◌, String, Option, none, some, List, [], ◌∷◌, leb, length,
  ◌==◌, codes, lower, str_eq, if◌then◌else◌,
}
use request_network.Types.{IdentityType, ethereum_address, ethereum_smart_contract, other, Identity}

-- `===` on identity types
unfoldable pub same_type : IdentityType → IdentityType → Bool
same_type ethereum_address ethereum_address = true
same_type ethereum_smart_contract ethereum_smart_contract = true
same_type (other a) (other b) = str_eq a b
same_type _ _ = false

-- `normalizeIdentityValue`
unfoldable pub normalize_identity_value : String → String
unfolding lower
normalize_identity_value value = lower value

-- `areEqualIdentities` on identities that are given
unfoldable pub same_identity : Identity → Identity → Bool
unfolding same_type normalize_identity_value
same_identity a b =
    same_type a.type b.type
    && str_eq (normalize_identity_value a.value) (normalize_identity_value b.value)

unfoldable pub are_equal_identities : Option Identity → Option Identity → Bool
unfolding same_identity
are_equal_identities (some a) (some b) = same_identity a b
are_equal_identities _ _ = false

-- `supportedIdentities.includes`
abbrev pub is_supported_identity : IdentityType → Bool
is_supported_identity (other s) = false
is_supported_identity _ = true

unfoldable pub is_hex : ℕ → Bool
is_hex c = leb b'a' c && leb c b'f' || leb b'A' c && leb c b'F' || leb b'0' c && leb c b'9'

unfoldable pub all_hex : List ℕ → Bool
unfolding is_hex
all_hex [] = true
all_hex (c ∷ s) = is_hex c && all_hex s

-- /^0x[a-fA-F0-9]{40}$/
unfoldable pub is_ethereum_address : List ℕ → Bool
unfolding all_hex
is_ethereum_address (a ∷ b ∷ s) = (a == b'0') && (b == b'x') && (length s == 40) && all_hex s
is_ethereum_address _ = false

unfoldable pub identity_has_error : Identity → Option String
unfolding is_ethereum_address
identity_has_error id =
    if not (is_supported_identity id.type)
    then some "identity type not supported"
    else if not (is_ethereum_address (codes id.value))
    then some "identity value must be an ethereum address"
    else none
