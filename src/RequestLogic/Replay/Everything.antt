-- ===== src/RequestLogic/Replay/Everything.antt =====
-- The transactions of a channel against the result of `computeRequestFromRequestId` of request-
-- logic.ts.
use request_network.Base.{
  ◌+◌, ◌≡◌, refl, ap, Bool, true, false, ◌||◌, ◌&&◌, not, String, Option, none, some, List, [], ◌∷◌,
  ◌++◌, map, length, length-append, filter, All, arith, Bool-cases, Option-cases, inl, inr, get_or,
}
use request_network.Types.{Event, Action, TransactionState, ConfirmedAction, IgnoredTransaction}
use request_network.Crypto.{normalize_keccak256_hash_signed}
use request_network.RequestLogic.Library.{Library}
use request_network.RequestLogic.Core.{AdvancedLogic}
use request_network.RequestLogic.Replay.{
  Computed, Transaction, read, is_confirmed, is_pending, remove_loop, reverse,
  remove_old_pending_transactions, not_null, some_all, sort, parse_transactions, unique_from,
  includes, compute_request_from_transactions, compute_request_from_request_id,
}
use request_network.RequestLogic.Replay.Accounting.{events_of, Runs, compute_accounting}
use request_network.RequestLogic.Replay.Pending.{All-reverse, superseded}
use request_network.RequestLogic.Replay.Duplicates.{
  unique_from_lem, unique_from-count, unique_from-repeated,
}
use request_network.RequestLogic.Replay.Counting.{
  count, removal-count, sort-count, not_null-some_all, map-length, Reads, unparsable, parse-Reads,
  count-all, Reads-length,
}

abbrev settled : TransactionState → Bool
settled s = is_confirmed s || is_pending s

abbrev Settled : Transaction → Type 0
Settled t = settled t.state ≡ true

abbrev SettledAction : ConfirmedAction → Type 0
SettledAction c = settled c.state ≡ true

remove_loop-Settled :
    (found : Bool) (l : List (Option Transaction)) → All Settled (remove_loop found l).1
unfolding remove_loop
remove_loop-Settled found [] = tt
remove_loop-Settled found (none ∷ l) = remove_loop-Settled found l
remove_loop-Settled found (some t ∷ l) =
    let test = is_confirmed t.state || is_pending t.state && not (found || is_confirmed t.state) in
    elim (Bool-cases test) [
      | inl keeps ↦
          rw keeps (ground (arith, keeps), remove_loop-Settled (found || is_confirmed t.state) l)
      | inr drops ↦ rw drops (remove_loop-Settled (found || is_confirmed t.state) l)
    ]

kept-Settled : (l : List (Option Transaction)) → All Settled (remove_old_pending_transactions l).1
unfolding remove_old_pending_transactions
kept-Settled l = All-reverse Settled _ (remove_loop-Settled false (reverse l))

module _ (parse : String → Option Action) where
  parse-Settled :
      (l : List Transaction) → All Settled l → All SettledAction (parse_transactions parse l).1
  unfolding parse_transactions
  parse-Settled [] h = tt
  parse-Settled (t ∷ l) (s, h) = elim (Option-cases (parse (get_or t.contents ""))) [
    | inl unread ↦ rw (unread, parse_transactions) (parse-Settled l h)
    | inr (a, parsed) ↦ rw (parsed, parse_transactions) (s, parse-Settled l h)
  ]

  parse-length :
      (l : List Transaction)
      → length (parse_transactions parse l).0 + length (parse_transactions parse l).1 ≡ length l
  unfolding parse_transactions
  parse-length [] = refl
  parse-length (t ∷ l) = elim (Option-cases (parse (get_or t.contents ""))) [
    | inl unread ↦ ground (arith, parse-length l)
    | inr (a, parsed) ↦ ground (arith, parse-length l)
  ]

unique-Settled :
    (hash : ConfirmedAction → String) (seen : List String) (l : List ConfirmedAction)
    → All SettledAction l
    → All SettledAction (unique_from hash seen l).0
unfolding unique_from
unique-Settled hash seen [] h = tt
unique-Settled hash seen (c ∷ l) (s, h) = elim (Bool-cases (includes seen (hash c))) [
  | inl known ↦ rw known (unique-Settled hash seen l h)
  | inr new ↦ rw new (s, unique-Settled hash (seen ++ hash c ∷ []) l h)
]

-- An action that is confirmed is not pending.
filter-Settled :
    (l : List ConfirmedAction)
    → All SettledAction l
    → length (filter (λ c. is_confirmed c.state) l) + length (filter (λ c. is_pending c.state) l)
      ≡ length l
filter-Settled [] h = refl
filter-Settled (c ∷ l) (s, h) = ground (arith, filter-Settled l h)

module _ {N : Type 0} (lib : Library N) (advanced : Option AdvancedLogic)
    (parse : String → Option Action) where
  abbrev pub hash_action : ConfirmedAction → String
  hash_action c = normalize_keccak256_hash_signed lib.crypto c.action

  -- What becomes of each transaction that is not null: it is dropped as superseded, or cannot be
  -- parsed, or is read as an action; an action is a duplicate of a kept one, or is kept, and then the
  -- confirmed and after them the pending ones are run. A part is what each test counts in it, so that
  -- none is lost, altered or named twice. The ignored transactions are the dropped ones, those that
  -- cannot be parsed, the duplicates and the refused actions, in this order, each with its reason.
  pub record Accounts (transactions : List (Option Transaction)) (result : Computed) : Type 0 where
    pub dropped : List Transaction
    pub unread : List Transaction
    pub readable : List Transaction
    pub parts :
        (p : Transaction → Bool)
        → count p (not_null transactions) ≡ count p dropped + (count p unread + count p readable)
    pub fails : All (λ t. parse (get_or t.contents "") ≡ none) unread
    pub actions : List ConfirmedAction
    pub reads : Reads parse readable actions
    pub duplicates : List ConfirmedAction
    pub kept : List ConfirmedAction
    pub action_parts :
        (q : ConfirmedAction → Bool) → count q actions ≡ count q kept + count q duplicates
    pub repeated : All (λ d. includes (map hash_action kept) (hash_action d) ≡ true) duplicates
    pub old : List Event
    pub new : List Event
    pub first : List IgnoredTransaction
    pub second : List IgnoredTransaction
    pub runs_confirmed :
        Runs lib advanced none (filter (λ c. is_confirmed c.state) kept) result.confirmed old first
    pub runs_pending :
        Runs lib advanced result.confirmed
          (filter (λ c. is_pending c.state) kept)
          result.pending
          new
          second
    pub events : events_of result.pending ≡ events_of result.confirmed ++ new
    pub ignored :
        result.ignored
        ≡ map superseded dropped
          ++ (map unparsable unread
              ++ (map (read "Duplicated transaction") duplicates
                  ++ map (λ i. read i.reason i.transaction) (first ++ second)))
    pub total :
        length (events_of result.pending) + length result.ignored ≡ length (not_null transactions)

  -- Each transaction of a channel that is not null has exactly one of the fates above, and is named in
  -- the result of `computeRequestFromRequestId` as it was given: as one event of the pending request,
  -- or as one entry of the ignored transactions.
  pub compute_request_from_request_id_lem :
      (transactions : List (Option Transaction))
      → Accounts transactions (compute_request_from_request_id lib advanced parse transactions)
  unfolding compute_request_from_request_id
  compute_request_from_request_id_lem transactions =
      let sorted = some_all (sort (not_null transactions)) in
      let removal = remove_old_pending_transactions sorted in
      let parsed = parse_transactions parse removal.1 in
      let uniques = unique_from hash_action [] parsed.1 in
      let (dropped, dropped_same, dropped_counts) = removal-count sorted in
      let (unread, readable, unread_same, fails, reads, counts) = parse-Reads parse removal.1 in
      let (old, new, (first, second, runs_old, runs_new, refused, added_old, added, run_count)) =
        compute_accounting lib advanced uniques.0 in
      let result = compute_request_from_transactions lib advanced uniques.0 in
      let repeats = map (read "Duplicated transaction") uniques.1 in
      let refusals = map (λ (i : IgnoredTransaction). read i.reason i.transaction) result.ignored in
      let (_, _, unique_count) = unique_from_lem hash_action parsed.1 in
      let all_settled =
        unique-Settled hash_action [] parsed.1
          (parse-Settled parse removal.1 (kept-Settled sorted)) in
      let parts : (p : Transaction → Bool)
          → count p (not_null transactions)
            ≡ count p dropped + (count p unread + count p readable) =
        λ p. omega (
          arith,
          dropped_counts p,
          counts p,
          ap (λ (x : List Transaction). count p x)
              (not_null-some_all (sort (not_null transactions))),
          sort-count p (not_null transactions),
        ) in
      record {
        dropped = dropped;
        unread = unread;
        readable = readable;
        parts = parts;
        fails = fails;
        actions = parsed.1;
        reads = reads;
        duplicates = uniques.1;
        kept = uniques.0;
        action_parts = λ q. unique_from-count hash_action q [] parsed.1;
        repeated = unique_from-repeated hash_action [] parsed.1;
        old = old;
        new = new;
        first = first;
        second = second;
        runs_confirmed = runs_old;
        runs_pending = runs_new;
        events = added;
        ignored = rw (dropped_same, unread_same, refused) refl;
        total = omega (
          arith,
          run_count,
          unique_count,
          filter-Settled uniques.0 all_settled,
          parts (λ t. true),
          count-all (not_null transactions),
          count-all dropped,
          count-all unread,
          count-all readable,
          Reads-length parse readable parsed.1 reads,
          length-append removal.0 (parsed.0 ++ (repeats ++ refusals)),
          length-append parsed.0 (repeats ++ refusals),
          length-append repeats refusals,
          ap (length {0}) dropped_same,
          ap (length {0}) unread_same,
          map-length superseded dropped,
          map-length unparsable unread,
          map-length (read "Duplicated transaction") uniques.1,
          map-length (λ (i : IgnoredTransaction). read i.reason i.transaction) result.ignored,
        );
      }
