-- ===== src/RequestLogic/Actions/Common.antt =====
-- What the actions share: the event of an action, and how it is added to the request.
use request_network.Base.{ℕ, none, some, [], ◌∷◌, ◌++◌, length}
use request_network.Types.{Identity, ActionName, ActionParameters, Event, Action, Request}
use request_network.RequestLogic.Checks.{push_extensions_data}

-- `params.extensionsData ? params.extensionsData.length : 0`
abbrev pub extensions_data_length : ActionParameters → ℕ
extensions_data_length p = elim p.extensions_data [ none ↦ 0 | some d ↦ length d ]

-- `generateEvent` of the actions whose event holds the length of the extensions data alone.
unfoldable pub generate_event : ActionName → Action → ℕ → Identity → Event
generate_event name action timestamp signer = record {
  name = name;
  action_signer = signer;
  parameters = record {
    expected_amount = none;
    delta_amount = none;
    extensions_data_length = extensions_data_length action.content.parameters;
    is_signed_request = none;
  };
  timestamp = timestamp;
}

-- `generateEvent` of the two actions that change the expected amount.
unfoldable pub generate_delta_event : ActionName → Action → ℕ → Identity → Event
generate_delta_event name action timestamp signer = record {
  name = name;
  action_signer = signer;
  parameters = record {
    expected_amount = none;
    delta_amount = action.content.parameters.delta_amount;
    extensions_data_length = extensions_data_length action.content.parameters;
    is_signed_request = none;
  };
  timestamp = timestamp;
}

-- The copy of the request that every update works on: the extensions data and the event pushed.
unfoldable pub record_action : Action → Event → Request → Request
unfolding push_extensions_data
record_action action event request =
    let pushed = push_extensions_data request action.content.parameters.extensions_data in
    record pushed { events = pushed.events ++ event ∷ [] }
