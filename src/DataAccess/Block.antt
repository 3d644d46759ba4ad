-- ===== src/DataAccess/Block.antt =====
-- The blocks of packages/data-access/src/block.ts. A position in a block is an integer,
-- although JSON may hold any value there.
pub mod Every
pub mod Laws
pub mod Parsing
use Prim.Native.String.{compare}
use Prim.Native.Nat.{Ordering}
use request_network.Base.{
  ℕ, Bool, true, false, not, ◌&&◌, ◌||◌, String, Option, none, some, List, [], ◌∷◌, ◌++◌, Dict,
  lookup, insert, length, leb, str_eq, append, given, is_some, get_or, Result, ok, err, ◌>>=◌, ◌>>◌,
  throw_if, if◌then◌else◌, zero, suc, ◌==◌,
}
use request_network.Base.Int.{ℤ, pos, negsuc}
use request_network.Amount.Print.{print}
use request_network.MultiFormat.{hash_format, is_deserializable_string, any}
use request_network.TransactionManager.{PersistedTransaction}

-- `IBlock`, with its header in it.
pub record Block : Type 0 where
  pub channel_ids : Dict (List ℤ)
  pub topics : Dict (List String)
  pub version : String
  pub transactions : List PersistedTransaction

-- What `JSON.parse` returns, where a property may be missing.
pub record MaybeHeader : Type 0 where
  pub maybe_channel_ids : Option (Dict (List ℤ))
  pub maybe_topics : Option (Dict (List String))
  pub maybe_version : Option String

pub record MaybeBlock : Type 0 where
  pub header : Option MaybeHeader
  pub maybe_transactions : Option (List PersistedTransaction)

unfoldable pub create_empty_block : Block
create_empty_block = record { channel_ids = []; topics = []; version = "0.1.0"; transactions = [] }

-- `Array.every` and `Object.keys(…).some`
unfoldable pub every {ℓ} : {A : Type ℓ} → (A → Bool) → List A → Bool
every p [] = true
every p (x ∷ xs) = p x && every p xs

unfoldable pub is_hash : String → Bool
unfolding any is_deserializable_string
is_hash s = any (λ f. is_deserializable_string f s) hash_format

abbrev pub has_contents : PersistedTransaction → Bool
has_contents t = given t.contents || given t.encrypted_data

-- `!(position < 0 || position >= transactionCount)`
unfoldable pub refers : ℕ → ℤ → Bool
refers count (pos n) = not (leb count n)
refers count (negsuc n) = false

unfoldable pub parse_block_header : MaybeHeader → List PersistedTransaction → Result Block
unfolding every is_hash refers
parse_block_header header transactions = do
  throw_if
      (not (is_some header.maybe_topics)
        || not (is_some header.maybe_channel_ids)
        || not (given header.maybe_version))
      "Header do not follow the block standard"
  let channel_ids = get_or header.maybe_channel_ids []
  let topics = get_or header.maybe_topics []
  let version = get_or header.maybe_version ""
  throw_if (not (str_eq version "0.1.0")) "Version not supported"
  throw_if (not (every has_contents transactions)) "Transactions do not follow the block standard"
  throw_if (not (every (λ e. is_hash e.0) channel_ids))
      "Channel ids in header.channelIds must be formatted keccak256 hashes"
  throw_if (not (every (λ e. every (refers (length transactions)) e.1) channel_ids))
      "transactions in channel ids must refer to transaction in the blocks"
  throw_if (not (every (λ e. is_hash e.0) topics))
      "Channel ids in header.topics must be formatted keccak256 hashes"
  throw_if (not (every (λ e. every is_hash e.1) topics))
      "topics in header.topics must be formatted keccak256 hashes"
  ok (record {
    channel_ids = channel_ids;
    topics = topics;
    version = version;
    transactions = transactions;
  })

-- `parse` is `JSON.parse`, whose error is put into the message.
unfoldable pub parse_block : (String → Result MaybeBlock) → String → Result Block
unfolding parse_block_header
parse_block parse contents = elim (parse contents) [
  | err e ↦ err (append "Impossible to JSON parse the data: \"" (append e "\""))
  | ok block ↦ elim block.header [
    | none ↦ err "Data do not follow the block standard"
    | some header ↦ elim block.maybe_transactions [
      | none ↦ err "Data do not follow the block standard"
      | some transactions ↦ parse_block_header header transactions
    ]
  ]
]

-- The loop over the topics of `pushTransaction`.
unfoldable pub add_topics : String → List String → Dict (List String) → Dict (List String)
add_topics channel_id [] topics = topics
add_topics channel_id (topic ∷ more) topics =
    add_topics channel_id more
      (insert channel_id (get_or (lookup channel_id topics) [] ++ topic ∷ []) topics)

unfoldable pub push_transaction : Block → PersistedTransaction → String → List String → Result Block
unfolding add_topics
push_transaction block transaction channel_id topics = do
  throw_if (not (is_some transaction.contents) && not (given transaction.encrypted_data))
      "The transaction is missing the data property or encryptedData property"
  ok (record block {
    channel_ids =
        insert channel_id
          (get_or (lookup channel_id block.channel_ids) [] ++ pos (length block.transactions) ∷ [])
          block.channel_ids;
    topics = add_topics channel_id topics block.topics;
    transactions = block.transactions ++ transaction ∷ [];
  })

unfoldable pub at {ℓ} : {A : Type ℓ} → List A → ℕ → Option A
at [] n = none
at (x ∷ xs) zero = some x
at (x ∷ xs) (suc n) = at xs n

unfoldable pub get_transaction_from_position : Block → ℤ → Option PersistedTransaction
unfolding at
get_transaction_from_position block (pos n) = at block.transactions n
get_transaction_from_position block (negsuc n) = none

-- `Array.from(new Set(positions))`
unfoldable pub same_position : ℤ → ℤ → Bool
same_position (pos m) (pos n) = m == n
same_position (negsuc m) (negsuc n) = m == n
same_position _ _ = false

unfoldable pub distinct_from : List ℤ → List ℤ → List ℤ
distinct_from seen [] = []
distinct_from seen (p ∷ l) =
    let known = not (every (λ q. not (same_position p q)) seen) in
    let rest = distinct_from (seen ++ p ∷ []) l in if known then rest else p ∷ rest

-- The text of a number, by which `sort()` compares.
unfoldable pub position_text : ℤ → String
position_text (pos n) = print n
position_text (negsuc n) = append "-" (print (suc n))

unfoldable pub insert_by_text : ℤ → List ℤ → List ℤ
insert_by_text p [] = p ∷ []
insert_by_text p (q ∷ l) =
    let rest = insert_by_text p l in
    elim (compare (position_text p) (position_text q)) [ Ordering.gt ↦ q ∷ rest | _ ↦ p ∷ q ∷ l ]

-- `sort()`, which compares the texts of the numbers.
unfoldable pub sort_positions : List ℤ → List ℤ
sort_positions [] = []
sort_positions (p ∷ l) = insert_by_text p (sort_positions l)

unfoldable pub found_transactions : Block → List ℤ → List PersistedTransaction
found_transactions block [] = []
found_transactions block (p ∷ l) =
    let rest = found_transactions block l in
    elim (get_transaction_from_position block p) [ some t ↦ t ∷ rest | none ↦ rest ]

unfoldable pub get_transactions_by_positions : Block → List ℤ → List PersistedTransaction
get_transactions_by_positions block positions =
    found_transactions block (sort_positions (distinct_from [] positions))

unfoldable pub get_transaction_position_from_channel_id : Block → String → List ℤ
get_transaction_position_from_channel_id block channel_id =
    get_or (lookup channel_id block.channel_ids) []

unfoldable pub all_positions : Block → List String → List ℤ
all_positions block [] = []
all_positions block (id ∷ ids) = get_or (lookup id block.channel_ids) [] ++ all_positions block ids

unfoldable pub get_transaction_positions_by_channel_ids : Block → List String → List ℤ
get_transaction_positions_by_channel_ids block channel_ids =
    sort_positions (distinct_from [] (all_positions block channel_ids))
