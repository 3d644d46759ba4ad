-- ===== src/RequestLogic/Methods/Single.antt =====
-- The reading, in request-logic.ts, of a channel that holds one action.
use request_network.Base.{
  ℕ, ◌≡◌, refl, ap, ◌⊎◌, String, Option, none, some, List, [], ◌∷◌, ◌++◌, map, ok, ◌>>=◌, arith,
}
use request_network.Types.{Action, Request, TransactionState, ConfirmedAction, IgnoredTransaction}
use request_network.TransactionManager.{TimestampedTransaction, DecryptionProvider, Environment}
use request_network.TransactionManager.Manager.{
  DataAccess, persist_transaction, get_transactions_by_channel_id,
}
use request_network.RequestLogic.Library.{Library}
use request_network.RequestLogic.Core.{AdvancedLogic, apply_action_to_request}
use request_network.RequestLogic.Replay.{
  Transaction, Computed, read, compute_request_from_request_id, remove_old_pending_transactions,
  remove_loop, reverse, not_null, some_all, sort, insert_sorted, parse_transactions, unique_from,
  includes, compute_request_from_transactions, replay,
}
use request_network.RequestLogic.Methods.{ManagerAccess}

-- A transaction as the request logic reads it.
abbrev pub read_transaction : Option TimestampedTransaction → Option Transaction
read_transaction none = none
read_transaction (some t) =
    some (record { state = t.state; contents = t.transaction.contents; timestamp = t.timestamp })

-- The transaction manager as the interface that the request logic takes.
abbrev pub manager_access :
    {B S : Type 0} → Environment B → Option DecryptionProvider → DataAccess S → ManagerAccess S
manager_access env provider access = record {
  persist = λ s contents channel_id topics encryption_params.
      persist_transaction env provider access s contents channel_id topics encryption_params
      >>= λ persisted. ok persisted.0;
  get = λ s channel_id.
      get_transactions_by_channel_id env provider access s channel_id >>= λ cleaned.
      ok (map read_transaction cleaned.transactions);
}

module _ {N : Type 0} (lib : Library N) (advanced : Option AdvancedLogic)
    (parse : String → Option Action) where
  pub replay_one :
      (c : ConfirmedAction) {r : Request}
      → apply_action_to_request lib advanced none c.action c.timestamp ≡ ok r
      → replay lib advanced none (c ∷ []) ≡ (some r, [])
  unfolding replay
  replay_one c applied = rw (replay, applied) refl

  -- The reading of a channel that holds one action, by the state of its transaction.
  unfoldable pub interpretation : TransactionState → Request → Computed
  interpretation TransactionState.confirmed r = record {
    confirmed = some r;
    pending = some r;
    ignored = [];
  }
  interpretation _ r = record { confirmed = none; pending = some r; ignored = [] }

  pub computed_one :
      (state : TransactionState) (d : String) (a : Action) (now : ℕ) {r : Request}
      → (state ≡ TransactionState.confirmed) ⊎ (state ≡ TransactionState.pending)
      → parse d ≡ some a
      → apply_action_to_request lib advanced none a now ≡ ok r
      → compute_request_from_request_id lib advanced parse
          (some (record { state = state; contents = some d; timestamp = now }) ∷ [])
        ≡ interpretation state r
  unfolding interpretation compute_request_from_request_id remove_old_pending_transactions
      remove_loop reverse not_null some_all sort insert_sorted parse_transactions unique_from
      includes compute_request_from_transactions replay
  computed_one TransactionState.confirmed d a now known parsed applied = rw parsed (
      ap
        (λ (p : Option Request × List IgnoredTransaction). record {
          confirmed = p.0;
          pending = p.0;
          ignored = map (λ i. read i.reason i.transaction) (p.1 ++ []);
        })
        (replay_one (record { state = TransactionState.confirmed; action = a; timestamp = now })
          applied))
  computed_one TransactionState.pending d a now known parsed applied = rw parsed (
      ap
        (λ (p : Option Request × List IgnoredTransaction). record {
          confirmed = none;
          pending = p.0;
          ignored = map (λ i. read i.reason i.transaction) p.1;
        })
        (replay_one (record { state = TransactionState.pending; action = a; timestamp = now })
          applied))
  computed_one (TransactionState.unknown s) d a now known parsed applied = ground arith
