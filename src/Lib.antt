-- ===== src/Lib.antt =====
-- Request Network: the interpretation of requests.
--
-- A request is not stored: it is read from the signed actions of its channel, each time again. The
-- request logic (packages/request-logic) turns a list of signed actions into a request, one action
-- at a time; the advanced logic (packages/advanced-logic) keeps the state of the extensions of a
-- request, payment networks above all; both stand on packages/utils, packages/multi-format and the
-- data of packages/types. An action that throws is ignored, and the request stays as it was.
--
-- The public methods of the request logic sign an action and hand it to the transaction manager
-- (packages/transaction-manager), which sends it in clear or encrypted, and which cleans the
-- transactions of a channel when they are read. The manager stands on the data access
-- (packages/data-access), which keeps transactions in blocks, and an index of these.
--
--   Base           shared names; JavaScript objects as association lists (Base/Dictionary), `throw`
--                  as an error result (Base/Failure), texts (Base/Text), integers (Base/Int)
--   Types          packages/types/src: request-logic-types, extension-types, identity-types,
--                  signature-types, transaction-types
--   Amount         packages/utils/src/amount.ts; Amount/Laws has the laws asked of BigNumber, and
--                  Amount/Instance an instance of them
--   Identity       packages/utils/src/identity.ts
--   MultiFormat    packages/multi-format/src
--   Crypto         packages/utils/src/crypto.ts, crypto/ec-utils.ts, signature.ts
--   Encryption     packages/utils/src/encryption.ts (Methods), crypto/crypto-wrapper.ts (Symmetric)
--                  and crypto/ec-utils.ts (Elliptic); Encryption/Library has the ciphers and curves
--                  with the laws asked of them, and Encryption/Instance an instance
--   TransactionManager
--                  packages/transaction-manager/src: transactions-factory (Factory), the classes of
--                  transactions and transactions-parser (Transactions, Parser), channel-parser
--                  (Channels) and transaction-manager (Manager), over an interface DataAccess
--   DataAccess     packages/data-access/src: block (Block), in-memory-indexer (Indexer),
--                  mock-data-access (Mock), pending-store, data-write and the reading of a channel in data-read
--                  (Pending), the reading by topics (Topics), and combined-data-access (Access),
--                  which fills the interface DataAccess of the manager
--   RequestLogic   packages/request-logic/src: role, version, action, request (Checks), actions/*,
--                  requestLogicCore (Core), and of request-logic.ts the replay (Replay) and the
--                  public methods (Methods), over the interface ManagerAccess, which the modelled
--                  transaction manager fills (Methods/EndToEnd, and on data access Methods/Stored)
--                  Its Inversion, Effect, Creation, Applied, Lifecycle, Amounts, Enabled, Refusals
--                  and Formatting are about these, and the children of Replay about the replay
--   AdvancedLogic  packages/advanced-logic/src/extensions: abstract-extension (Extension),
--                  content-data, and of payment-network/ declarative, address-based,
--                  reference-based and fee-reference-based; their Laws, Declarations and Counters
--                  are about these
--
-- A module Tests holds concrete data and the theorems applied to it.
--
-- `applyActionToRequest` is RequestLogic/Core.apply_action_to_request: it takes the request, or none
-- at a creation, the action and its timestamp, and returns the request after it or the message that
-- the code throws. `computeRequestFromTransactions` folds it over the confirmed and then the pending
-- actions (Replay.replay). The advanced logic is an argument of both, the function
-- `applyActionToExtensions`; AdvancedLogic models the classes behind it.
--
-- How the code is read:
--   * deepCopy and the mutation of copies are values; `parameters: any` is a record of options, and
--     a test such as `!x` is a test of the option and of the empty text or zero in it;
--   * a request holds a state and an expected amount always, since its creation sets both;
--   * the clock in seconds, which a creation is formatted with, and that in milliseconds, at which it
--     is tried, are two numbers (RequestLogic/Methods.Clock);
--   * a position of a transaction in a block is an integer, and a text that is JSON and is read as an
--     action is that of an action, although the code checks neither;
--   * toLowerCase is that of ASCII letters; a number that is not an integer keeps its printed text;
--   * an object used as a map is an association list in insertion order; names inherited from
--     Object.prototype are not in it.
--
-- No function here needs fuel but the printing of a number, which is given one more step than the
-- number: each step divides it by ten.
--
-- An effect is a value: a state that is passed on, an error result, a list. A call draws at most one
-- random value of each kind, which is a field of the library of ciphers; the time is an argument.
--
-- Parameters: the ciphers, the curve and the encodings of buffers (Encryption.Library),
-- ethers.BigNumber (the interface BigNumber, its laws IsBigNumber), keccak256, secp256k1, hashMessage
-- and JSON.stringify with sorted keys (CryptoLibrary), semver (Library), JSON.parse, the signature and
-- decryption providers, the storage and the currency manager.
--
-- Not modelled: the further payment networks and the dispatch of advanced-logic.ts; the metadata of
-- the storage that packages/data-access returns, and its boundaries on the time of a channel; the
-- events that a persist emits after it has returned; currencies; the storage, the chains, the payment
-- packages and the client, which send and receive over the network; and the release of yarn in the
-- repository.
pub mod Base
pub mod Types
pub mod Amount
pub mod Identity
pub mod MultiFormat
pub mod Crypto
pub mod Encryption
pub mod TransactionManager
pub mod DataAccess
pub mod RequestLogic
pub mod AdvancedLogic
