-- ===== src/RequestLogic/Action.antt =====
-- packages/request-logic/src/action.ts.
use request_network.Base.{Bool, String, Result, ok, if◌then◌else◌, get_or}
use request_network.Types.{Identity, Role, ActionName, UnsignedAction, Action}
use request_network.MultiFormat
use request_network.Crypto.{
  normalize_keccak256_hash, normalize_keccak256_hash_signed, recover_signer,
}
use request_network.RequestLogic.Library.{Library}
use request_network.RequestLogic.Role.{get_role_in_unsigned_action}
use request_network.RequestLogic.Version.{is_supported}

-- `createAction` asks the signature provider for the action with its signature.
abbrev pub SignatureProvider : Type 0
SignatureProvider = UnsignedAction → Identity → Result Action

unfoldable pub create_action : SignatureProvider → UnsignedAction → Identity → Result Action
create_action provider unsigned signer = provider unsigned signer

unfoldable pub get_role_in_action : Identity → Action → Role
unfolding get_role_in_unsigned_action
get_role_in_action identity action = get_role_in_unsigned_action identity action.content

unfoldable pub get_version_from_action : Action → String
get_version_from_action action = action.content.version

-- A text that may be undefined, where the code uses it as a text.
module _ {N : Type 0} (lib : Library N) where
  unfoldable pub get_signer_identity_from_action : Action → Result Identity
  get_signer_identity_from_action action = recover_signer lib.crypto action

  unfoldable pub is_action_version_supported : Action → Bool
  is_action_version_supported action = is_supported lib action.content.version

  -- Up to version 2.0.0 the hash leaves out the signature.
  unfoldable pub get_action_hash : Action → Result String
  get_action_hash action =
      if lib.semver_lte action.content.version "2.0.0"
      then MultiFormat.serialize (record {
        type = "keccak256";
        value = normalize_keccak256_hash lib.crypto action.content;
      })
      else MultiFormat.serialize
          (record { type = "keccak256"; value = normalize_keccak256_hash_signed lib.crypto action })

  -- `undefined`, where an action gives no identifier, is the empty text.
  unfoldable pub get_request_id : Action → Result String
  unfolding get_action_hash
  get_request_id action = elim action.content.name [
    | ActionName.create ↦ get_action_hash action
    | _ ↦ ok (get_or action.content.parameters.request_id "")
  ]
