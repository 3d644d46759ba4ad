-- ===== src/AdvancedLogic/ReferenceBased.antt =====
-- packages/advanced-logic/src/extensions/payment-network/reference-based.ts.
use request_network.Base.{
  ℕ, suc, String, Bool, false, not, ◌&&◌, ◌||◌, Option, none, some, List, [], ◌∷◌, Result, ok,
  ◌>>=◌, ◌>>◌, throw_if, given, codes, leb, if◌then◌else◌,
}
use request_network.Types.{
  ExtensionValues, no_values, ExtensionAction, ExtensionEvent, ExtensionState,
}
use request_network.AdvancedLogic.Extension.{read_parameters}
use request_network.AdvancedLogic.AddressBased.{
  AddressRules, create_address_based_action, address_based_creation,
}

abbrev is_lower_hex : ℕ → Bool
is_lower_hex c = leb b'0' c && leb c b'9' || leb b'a' c && leb c b'f'

-- A run of at least `want` lower-case hexadecimal digits, `run` of them read so far.
unfoldable pub has_hex_run : ℕ → ℕ → List ℕ → Bool
has_hex_run want run [] = leb want run
has_hex_run want run (c ∷ s) =
    leb want run || has_hex_run want (if is_lower_hex c then suc run else 0) s

-- `eightHexRegex.test`, /[0-9a-f]{16,}/
unfoldable pub is_salt : Option String → Bool
unfolding has_hex_run
is_salt none = false
is_salt (some s) = has_hex_run 16 0 (codes s)

abbrev salt_error : String
salt_error =
    "The salt must be a string of minimum 16 hexadecimal characters. Example: 'ea3bc7caf64110ca'"

module _ (rules : AddressRules) where
  unfoldable pub create_reference_based_action :
      String → String → ExtensionValues → Result ExtensionAction
  unfolding is_salt create_address_based_action
  create_reference_based_action extension_id current_version p = do
    throw_if (not (given p.salt)) "salt should not be empty"
    throw_if (not (is_salt p.salt)) salt_error
    create_address_based_action rules extension_id current_version p

  unfoldable pub reference_based_creation : String → ExtensionAction → ℕ → Result ExtensionState
  unfolding is_salt address_based_creation
  reference_based_creation extension_id action timestamp = do
    p ← read_parameters action "salt"
    throw_if (not (given p.salt)) "salt should not be empty"
    throw_if (not (is_salt p.salt)) salt_error
    basic ← address_based_creation rules extension_id action timestamp
    let shown : ExtensionValues = record no_values {
      payment_address = p.payment_address;
      refund_address = p.refund_address;
      salt = p.salt;
    }
    let created : ExtensionEvent = record {
      name = "create";
      parameters = shown;
      timestamp = timestamp;
      sender = none;
    }
    let values = basic.values
    ok (record basic { events = created ∷ []; values = record values { salt = p.salt } })
