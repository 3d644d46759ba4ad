-- ===== src/RequestLogic/Replay.antt =====
-- The interpretation of a request from its transactions, packages/request-logic/src/request-logic.ts:
-- `removeOldPendingTransactions`, `uniqueByProperty` of packages/utils/src/utils.ts,
-- `computeRequestFromTransactions` and `computeRequestFromRequestId`.
pub mod Accounting
pub mod Pending
pub mod Duplicates
pub mod Counting
pub mod Everything
use request_network.Base.{
  ℕ, Bool, true, false, not, ◌&&◌, ◌||◌, String, Option, none, some, List, [], ◌∷◌, ◌++◌, map, leb,
  Result, ok, err, filter, str_eq, if◌then◌else◌, get_or,
}
use request_network.Types.{Action, Request, TransactionState, ConfirmedAction, IgnoredTransaction}
use request_network.Crypto.{normalize_keccak256_hash_signed}
use request_network.RequestLogic.Library.{Library}
use request_network.RequestLogic.Core.{AdvancedLogic, apply_action_to_request}

-- `TransactionTypes.ITimestampedTransaction`, with the `data` of the transaction in it.
pub record Transaction : Type 0 where
  pub state : TransactionState
  pub contents : Option String
  pub timestamp : ℕ

-- An entry of `ignoredTransactions`: a transaction, or the action read from it, with the reason.
pub data Ignored : Type 0 where
  raw : String → Transaction → Ignored
  read : String → ConfirmedAction → Ignored

abbrev pub is_confirmed : TransactionState → Bool
is_confirmed TransactionState.confirmed = true
is_confirmed _ = false

abbrev pub is_pending : TransactionState → Bool
is_pending TransactionState.pending = true
is_pending _ = false

-- The loop of `removeOldPendingTransactions`, over the reversed list.
unfoldable pub remove_loop : Bool → List (Option Transaction) → List Ignored × List Transaction
remove_loop confirmed_found [] = ([], [])
remove_loop confirmed_found (none ∷ l) = remove_loop confirmed_found l
remove_loop confirmed_found (some t ∷ l) =
    let found = confirmed_found || is_confirmed t.state in
    let (ignored, kept) = remove_loop found l in
    if is_confirmed t.state || is_pending t.state && not found
    then (ignored, t ∷ kept)
    else (raw "Confirmed transaction newer than this pending transaction" t ∷ ignored, kept)

-- `Array.reverse`
unfoldable pub reverse {ℓ} : {A : Type ℓ} → List A → List A
reverse [] = []
reverse (x ∷ xs) = reverse xs ++ x ∷ []

unfoldable pub remove_old_pending_transactions :
    List (Option Transaction) → List Ignored × List Transaction
unfolding remove_loop reverse
remove_old_pending_transactions transactions =
    let (ignored, kept) = remove_loop false (reverse transactions) in (ignored, reverse kept)

-- `Array.includes` on texts
unfoldable pub includes : List String → String → Bool
includes [] h = false
includes (k ∷ ks) h = str_eq k h || includes ks h

-- `uniqueByProperty(…, 'action')`; `hash` is the normalized Keccak256 hash of the action, and `seen`
-- the hashes so far. The items that are new, and the duplicates.
unfoldable pub unique_from :
    (ConfirmedAction → String)
    → List String
    → List ConfirmedAction
    → List ConfirmedAction × List ConfirmedAction
unfolding includes
unique_from hash seen [] = ([], [])
unique_from hash seen (c ∷ l) =
    let known = includes seen (hash c) in
    let (items, duplicates) = unique_from hash (if known then seen else seen ++ hash c ∷ []) l in
    if known then (items, c ∷ duplicates) else (c ∷ items, duplicates)

-- `sort((a, b) => a.timestamp - b.timestamp)`, which is stable.
unfoldable pub insert_sorted : Transaction → List Transaction → List Transaction
insert_sorted t [] = t ∷ []
insert_sorted t (u ∷ l) = if leb t.timestamp u.timestamp then t ∷ u ∷ l else u ∷ insert_sorted t l

unfoldable pub sort : List Transaction → List Transaction
unfolding insert_sorted
sort [] = []
sort (t ∷ l) = insert_sorted t (sort l)

-- `filter(notNull)`
unfoldable pub not_null {ℓ} : {A : Type ℓ} → List (Option A) → List A
not_null [] = []
not_null (none ∷ l) = not_null l
not_null (some x ∷ l) = x ∷ not_null l

-- A list with no `null` in it, where one may be expected.
unfoldable pub some_all {ℓ} : {A : Type ℓ} → List A → List (Option A)
some_all [] = []
some_all (x ∷ l) = some x ∷ some_all l

-- The parsing of the transactions; `parse` is `JSON.parse`, read as an action: a text that is JSON is
-- taken to be that of an action.
unfoldable pub parse_transactions :
    (String → Option Action) → List Transaction → List Ignored × List ConfirmedAction
parse_transactions parse [] = ([], [])
parse_transactions parse (t ∷ l) =
    let (ignored, actions) = parse_transactions parse l in
    elim (parse (get_or t.contents "")) [
      | some a ↦
          (ignored, record { state = t.state; action = a; timestamp = t.timestamp } ∷ actions)
      | none ↦ (raw "JSON parsing error" t ∷ ignored, actions)
    ]

pub record Interpretation : Type 0 where
  pub confirmed : Option Request
  pub pending : Option Request
  pub ignored : List IgnoredTransaction

-- The same, with the transactions that were ignored on the way.
pub record Computed : Type 0 where
  pub confirmed : Option Request
  pub pending : Option Request
  pub ignored : List Ignored

module _ {N : Type 0} (lib : Library N) (advanced : Option AdvancedLogic) where
  -- `reduce` with `try` and `catch`: an action that throws is ignored, and the state stays.
  unfoldable pub replay :
      Option Request → List ConfirmedAction → Option Request × List IgnoredTransaction
  replay state [] = (state, [])
  replay state (c ∷ l) =
      let applied = apply_action_to_request lib advanced state c.action c.timestamp in
      let next : Option Request = elim applied [ ok r ↦ some r | err e ↦ state ] in
      let skipped : List IgnoredTransaction = elim applied [
        | ok r ↦ []
        | err e ↦ record { transaction = c; reason = e } ∷ []
      ] in
      let (final, ignored) = replay next l in (final, skipped ++ ignored)

  -- `computeRequestFromTransactions`
  unfoldable pub compute_request_from_transactions : List ConfirmedAction → Interpretation
  unfolding replay
  compute_request_from_transactions transactions =
      let (confirmed, ignored) = replay none (filter (λ c. is_confirmed c.state) transactions) in
      let (pending, more) = replay confirmed (filter (λ c. is_pending c.state) transactions) in
      record { confirmed = confirmed; pending = pending; ignored = ignored ++ more }

  -- `computeRequestFromRequestId`, from the transactions that the transaction manager returns.
  unfoldable pub compute_request_from_request_id :
      (String → Option Action) → List (Option Transaction) → Computed
  unfolding not_null sort some_all remove_old_pending_transactions parse_transactions unique_from
      compute_request_from_transactions
  compute_request_from_request_id parse transactions =
      let (old, kept) = remove_old_pending_transactions (some_all (sort (not_null transactions))) in
      let (unread, actions) = parse_transactions parse kept in
      let (items, duplicates) =
        unique_from (λ c. normalize_keccak256_hash_signed lib.crypto c.action) [] actions in
      let result = compute_request_from_transactions items in
      record {
        confirmed = result.confirmed;
        pending = result.pending;
        ignored =
            old
            ++ (unread
                ++ (map (read "Duplicated transaction") duplicates
                    ++ map (λ i. read i.reason i.transaction) result.ignored));
      }
