-- ===== src/AdvancedLogic/ContentData.antt =====
-- packages/advanced-logic/src/extensions/content-data.ts.
use request_network.Base.{ℕ, String, none, [], Result, ok, ◌>>=◌, ◌>>◌, throw_if, not}
use request_network.Types.{
  given_json, ExtensionType, ExtensionValues, ExtensionAction, ExtensionState,
}
use request_network.AdvancedLogic.Extension.{
  Extension, create_creation_action, abstract_creation, no_validation, read_parameters,
}

abbrev no_content : String
no_content = "No content has been given for the extension content-data"

unfoldable pub create_content_data_action : ExtensionValues → Result ExtensionAction
unfolding create_creation_action
create_content_data_action parameters = do
  throw_if (not (given_json parameters.content)) no_content
  ok (create_creation_action "content-data" "0.1.0" parameters)

unfoldable pub content_data_creation : ExtensionAction → ℕ → Result ExtensionState
unfolding abstract_creation
content_data_creation action timestamp = do
  p ← read_parameters action "content"
  throw_if (not (given_json p.content)) no_content
  generic ← abstract_creation ExtensionType.content_data action
  let values = generic.values
  ok (record generic {
    events = [];
    id = "content-data";
    type = ExtensionType.content_data;
    values = record values { content = p.content };
  })

unfoldable pub content_data : Extension
unfolding content_data_creation
content_data = record {
  extension_type = ExtensionType.content_data;
  extension_id = "content-data";
  current_version = "0.1.0";
  apply_creation = content_data_creation;
  validate = no_validation;
  actions = λ name. none;
}
