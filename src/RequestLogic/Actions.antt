-- ===== src/RequestLogic/Actions.antt =====
-- packages/request-logic/src/actions/: one module for each kind of action.
pub mod Common
pub mod Create
pub mod Accept
pub mod Cancel
pub mod IncreaseExpectedAmount
pub mod ReduceExpectedAmount
pub mod AddStakeholders
pub mod AddExtensionsData
