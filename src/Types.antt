-- ===== src/Types.antt =====
-- The data of the request logic and of its extensions, after
-- packages/types/src/request-logic-types.ts, extension-types.ts, identity-types.ts and
-- signature-types.ts. A property that may be undefined is an `Option`. A `parameters: any` is one
-- record with a field for each property that the code reads.
mod Primitives
mod Extensions
mod Requests
pub use Primitives.*
pub use Extensions.*
pub use Requests.*
