-- ===== src/RequestLogic/Methods/Reading.antt =====
-- The public methods of packages/request-logic/src/request-logic.ts that read: `getRequestFromId`,
-- `getRequestsByTopic`, `getRequestsByMultipleTopics` and what they compute.
use request_network.Base.{
  ◌||◌, String, Option, none, some, List, [], ◌∷◌, ◌++◌, map, Dict, Result, ok, ◌>>=◌, is_some,
  str_eq, length, drop, if◌then◌else◌,
}
use request_network.Types.{Request, Event}
use request_network.Crypto.{normalize_keccak256_hash_signed}
use request_network.RequestLogic.Replay.{
  Transaction, Ignored, read, remove_old_pending_transactions, parse_transactions, unique_from,
  compute_request_from_transactions,
}
use request_network.RequestLogic.Methods.{RequestLogic, hash_topic, hash_topics, interpret}

-- The keys of a request that a JavaScript object of it has.
pub data Field : Type 0 where
  field : String → Field
  events_field : Field

-- The part of the pending request that differs from the confirmed one. `whole` is the pending
-- request, where nothing is confirmed; `changes` names the keys that differ, whose values are those
-- of the pending request, with its new events where they differ.
pub data Difference : Type 0 where
  whole : Request → Difference
  changes : List String → Option (List Event) → Difference

-- What is read of `normalizeKeccak256Hash` on the properties of a request: its keys in order, and
-- whether two requests have different hashes at a key.
pub record FieldHashes : Type 0 where
  pub keys : Request → List Field
  pub hash : Field → Request → String

pub record RequestAndMeta : Type 0 where
  pub request : Option Request
  pub pending : Option Difference
  pub ignored : List Ignored

abbrev changed : Option Difference → List String × Option (List Event)
changed (some (changes names events)) = (names, events)
changed _ = ([], none)

-- One key of the loop of `computeDiffBetweenPendingAndConfirmedRequestState`.
unfoldable pub difference_at :
    FieldHashes → Request → Request → Field → Option Difference → Option Difference
difference_at hashes confirmed pending key difference =
    if str_eq (hashes.hash key pending) (hashes.hash key confirmed)
    then difference
    else let (names, events) = changed difference in
      some (elim key [
        | field name ↦ changes (names ++ name ∷ []) events
        | events_field ↦ changes names (some (drop (length confirmed.events) pending.events))
      ])

unfoldable pub difference_loop :
    FieldHashes → Request → Request → List Field → Option Difference → Option Difference
unfolding difference_at
difference_loop hashes confirmed pending [] difference = difference
difference_loop hashes confirmed pending (key ∷ keys) difference =
    difference_loop hashes confirmed pending keys
      (difference_at hashes confirmed pending key difference)

unfoldable pub compute_diff_between_pending_and_confirmed_request_state :
    FieldHashes → Option Request → Option Request → Option Difference
unfolding difference_loop
compute_diff_between_pending_and_confirmed_request_state hashes none none = none
compute_diff_between_pending_and_confirmed_request_state hashes none (some pending) =
    some (whole pending)
compute_diff_between_pending_and_confirmed_request_state hashes (some confirmed) none = none
compute_diff_between_pending_and_confirmed_request_state hashes (some confirmed) (some pending) =
    difference_loop hashes confirmed pending (hashes.keys pending) none

module _ {N S : Type 0} (logic : RequestLogic N S) (hashes : FieldHashes) where
  unfoldable pub get_request_from_id : S → String → Result RequestAndMeta
  unfolding interpret compute_diff_between_pending_and_confirmed_request_state
  get_request_from_id s request_id = do
    computed ← interpret logic s request_id
    ok (record {
      request = computed.confirmed;
      pending =
          compute_diff_between_pending_and_confirmed_request_state hashes computed.confirmed
            computed.pending;
      ignored = computed.ignored;
    })

  -- One channel of `computeMultipleRequestFromChannels`, whose transactions are not sorted here.
  unfoldable pub compute_request_from_channel : List (Option Transaction) → RequestAndMeta
  unfolding remove_old_pending_transactions parse_transactions unique_from
      compute_request_from_transactions compute_diff_between_pending_and_confirmed_request_state
  compute_request_from_channel transactions =
      let (old, kept) = remove_old_pending_transactions transactions in
      let (unread, actions) = parse_transactions logic.json.parse kept in
      let (items, duplicates) =
        unique_from (λ c. normalize_keccak256_hash_signed logic.lib.crypto c.action) [] actions in
      let result = compute_request_from_transactions logic.lib logic.advanced_logic items in
      record {
        request = result.confirmed;
        pending =
            compute_diff_between_pending_and_confirmed_request_state hashes result.confirmed
              result.pending;
        ignored =
            old
            ++ (unread
                ++ (map (read "Duplicated transaction") duplicates
                    ++ map (λ i. read i.reason i.transaction) result.ignored));
      }

  -- A channel that holds no request is left out.
  unfoldable pub compute_multiple_request_from_channels :
      Dict (List (Option Transaction)) → List RequestAndMeta
  unfolding compute_request_from_channel
  compute_multiple_request_from_channels [] = []
  compute_multiple_request_from_channels ((channel_id, transactions) ∷ channels) =
      let computed = compute_request_from_channel transactions in
      let rest = compute_multiple_request_from_channels channels in
      if is_some computed.request || is_some computed.pending then computed ∷ rest else rest

  -- `get_channels` is that of the transaction manager, on hashed topics.
  unfoldable pub get_requests_by_topic :
      (String → Result (Dict (List (Option Transaction)))) → String → Result (List RequestAndMeta)
  unfolding hash_topic compute_multiple_request_from_channels
  get_requests_by_topic get_channels topic = do
    hashed_topic ← hash_topic logic topic
    channels ← get_channels hashed_topic
    ok (compute_multiple_request_from_channels channels)

  unfoldable pub get_requests_by_multiple_topics :
      (List String → Result (Dict (List (Option Transaction))))
      → List String
      → Result (List RequestAndMeta)
  unfolding hash_topics compute_multiple_request_from_channels
  get_requests_by_multiple_topics get_channels topics = do
    hashed_topics ← hash_topics logic topics
    channels ← get_channels hashed_topics
    ok (compute_multiple_request_from_channels channels)
