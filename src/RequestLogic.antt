-- ===== src/RequestLogic.antt =====
-- The request logic, packages/request-logic/src/: the actions on a request and their replay.
pub mod Library
pub mod Role
pub mod Version
pub mod Action
pub mod Checks
pub mod Actions
pub mod Core
pub mod Inversion
pub mod Effect
pub mod Creation
pub mod Applied
pub mod Lifecycle
pub mod Refusals
pub mod Formatting
pub mod Enabled
pub mod Amounts
pub mod Replay
pub mod Methods
mod Tests
