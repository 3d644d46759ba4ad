-- ===== src/AdvancedLogic.antt =====
-- The advanced logic, packages/advanced-logic/src/: the extensions of a request, as state machines.
-- A class is a function that builds an `Extension`, and a call of `super` is a call of the
-- function of the class above.
pub mod Extension
pub mod ContentData
pub mod Declarative
pub mod Currency
pub mod AddressBased
pub mod ReferenceBased
pub mod FeeReferenceBased
mod Tests
