-- ===== src/AdvancedLogic/Extension.antt =====
-- packages/advanced-logic/src/extensions/abstract-extension.ts.
pub mod Laws
use request_network.Base.{
  ℕ, String, Option, none, some, [], Result, ok, err, ◌>>=◌, ◌>>◌, throw_if, given, not, append,
  str_eq, lookup, insert, is_some, if◌then◌else◌,
}
use request_network.Types.{
  Identity, ExtensionType, ExtensionValues, no_values, ExtensionAction, ExtensionState,
  ExtensionStates, Request,
}

-- `ExtensionTypes.ApplyAction`
abbrev pub ApplyAction : Type 0
ApplyAction = ExtensionState → ExtensionAction → Request → Identity → ℕ → Result ExtensionState

-- What a class of extensions gives to the abstract class: its fields, the methods that it overrides,
-- and the actions that it supports, by name.
pub record Extension : Type 0 where
  pub extension_type : ExtensionType
  pub extension_id : String
  pub current_version : String
  pub apply_creation : ExtensionAction → ℕ → Result ExtensionState
  pub validate : Request → ExtensionAction → Result (Unit {0})
  pub actions : String → Option ApplyAction

-- `createCreationAction`
unfoldable pub create_creation_action : String → String → ExtensionValues → ExtensionAction
create_creation_action extension_id current_version parameters = record {
  action = "create";
  id = extension_id;
  parameters = some parameters;
  version = some current_version;
}

-- The text of `action.version`, where it is given.
abbrev version_text : Option String → String
version_text none = ""
version_text (some v) = v

-- `applyCreation` of the abstract class
unfoldable pub abstract_creation : ExtensionType → ExtensionAction → Result ExtensionState
abstract_creation extension_type action = do
  throw_if (not (given action.version)) "version is required at creation"
  ok (record {
    type = extension_type;
    id = action.id;
    version = version_text action.version;
    events = [];
    values = no_values;
  })

-- `validate` of the abstract class
abbrev pub no_validation : Request → ExtensionAction → Result (Unit {0})
no_validation request action = ok tt

-- The parameters of an action, where a property of them is read.
abbrev pub read_parameters : ExtensionAction → String → Result ExtensionValues
read_parameters action property = elim action.parameters [
  | some p ↦ ok p
  | none ↦ err (append "Cannot read properties of undefined (reading '" (append property "')"))
]

module _ (extension : Extension) where
  -- The branch of `applyActionToExtension` that creates the extension: whether it is there is asked
  -- of the request.
  unfoldable pub apply_create :
      ExtensionStates → ExtensionAction → Request → ℕ → Result ExtensionStates
  unfolding lookup insert
  apply_create states action request timestamp = do
    throw_if (is_some (lookup action.id request.extensions))
        "This extension has already been created"
    created ← extension.apply_creation action timestamp
    ok (insert action.id created states)

  -- The branch for any other action: whether the extension is there is asked of the states.
  unfoldable pub apply_other :
      ExtensionStates → ExtensionAction → Request → Identity → ℕ → Result ExtensionStates
  unfolding lookup insert
  apply_other states action request signer timestamp = elim (lookup action.id states) [
    | none ↦ err "The extension should be created before receiving any other action"
    | some state ↦ elim (extension.actions action.action) [
      | none ↦ err (append "Unknown action: " action.action)
      | some apply ↦
          apply state action request signer timestamp >>= λ next. ok (insert action.id next states)
    ]
  ]

  unfoldable pub apply_action_to_extension :
      ExtensionStates → ExtensionAction → Request → Identity → ℕ → Result ExtensionStates
  unfolding apply_create apply_other
  apply_action_to_extension states action request signer timestamp =
      extension.validate request action
      >> (if str_eq action.action "create"
          then apply_create states action request timestamp
          else apply_other states action request signer timestamp)
