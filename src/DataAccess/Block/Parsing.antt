-- ===== src/DataAccess/Block/Parsing.antt =====
-- `parseBlock` of packages/data-access/src/block.ts, and the positions of a parsed block.
use request_network.Base.{
  ok_value, ◌≡◌, refl, inl, inr, not, ◌||◌, String, some, List, [], Dict, length, str_eq, eq_iff,
  get_or, given, is_some, Result, Result-cases, ok, >>=-eq-ok, throw_if, throw_if-not-ok,
  Option-cases, arith,
}
use request_network.Base.Int.{ℤ}
use request_network.TransactionManager.{PersistedTransaction}
use request_network.DataAccess.Block.{
  Block, MaybeHeader, MaybeBlock, every, is_hash, has_contents, refers, parse_block_header,
  parse_block,
}
use request_network.DataAccess.Block.Every.{Holds}
use request_network.DataAccess.Block.Laws.{IsBlock}

-- The object that a block is, as JSON gives it back.
abbrev pub maybe_of : Block → MaybeBlock
maybe_of b = record {
  header = some (record {
    maybe_channel_ids = some b.channel_ids;
    maybe_topics = some b.topics;
    maybe_version = some b.version;
  });
  maybe_transactions = some b.transactions;
}

parse_block_header-IsBlock :
    (header : MaybeHeader) (transactions : List PersistedTransaction) {b : Block}
    → parse_block_header header transactions ≡ ok b
    → IsBlock b
unfolding parse_block_header
parse_block_header-IsBlock header transactions {b} h =
    let (_, whole, h₁) =
      >>=-eq-ok
        (throw_if
          (not (is_some header.maybe_topics)
            || not (is_some header.maybe_channel_ids)
            || not (given header.maybe_version))
          _)
        _ h in
    let version : String = get_or header.maybe_version "" in
    let (_, versions, h₂) = >>=-eq-ok (throw_if (not (str_eq version "0.1.0")) _) _ h₁ in
    let (_, contents, h₃) = >>=-eq-ok (throw_if (not (every has_contents transactions)) _) _ h₂ in
    let (_, ids, h₄) =
      >>=-eq-ok (throw_if (not (every (λ e. is_hash e.0) (get_or header.maybe_channel_ids []))) _) _
        h₃ in
    let (_, within, h₅) =
      >>=-eq-ok
        (throw_if
          (not (
            every (λ e. every (refers (length transactions)) e.1)
              (get_or header.maybe_channel_ids [])))
          _)
        _ h₄ in
    let (_, keys, h₆) =
      >>=-eq-ok (throw_if (not (every (λ e. is_hash e.0) (get_or header.maybe_topics []))) _) _
        h₅ in
    let (_, values, last) =
      >>=-eq-ok (throw_if (not (every (λ e. every is_hash e.1) (get_or header.maybe_topics []))) _)
        _ h₆ in
    rw (← ok_value last) (
      (eq_iff version "0.1.0").0 (throw_if-not-ok (str_eq version "0.1.0") _ versions),
      throw_if-not-ok _ _ contents,
      throw_if-not-ok _ _ ids,
      throw_if-not-ok _ _ within,
      throw_if-not-ok _ _ keys,
      throw_if-not-ok _ _ values,
    )

-- What `parseBlock` returns follows the block standard.
pub parse_block-IsBlock :
    (parse : String → Result MaybeBlock) (contents : String) {b : Block}
    → parse_block parse contents ≡ ok b
    → IsBlock b
unfolding parse_block
parse_block-IsBlock parse contents {b} h = elim (Result-cases (parse contents)) [
  | inr (e, failed) ↦ absurd (ground arith)
  | inl (block, read) ↦ elim (Option-cases block.header) [
    | inl missing ↦ absurd (ground arith)
    | inr (header, found) ↦ elim (Option-cases block.maybe_transactions) [
      | inl missing ↦ absurd (ground arith)
      | inr (transactions, given_them) ↦
          let checked : parse_block_header header transactions ≡ ok b = ground arith in
          parse_block_header-IsBlock header transactions checked
    ]
  ]
]

parse_block_header-accepts :
    (version : String) (transactions : List PersistedTransaction) (channel_ids : Dict (List ℤ))
    (topics : Dict (List String))
    → version ≡ "0.1.0"
    → Holds has_contents transactions
    → Holds (λ (e : String × List ℤ). is_hash e.0) channel_ids
    → Holds (λ (e : String × List ℤ). every (refers (length transactions)) e.1) channel_ids
    → Holds (λ (e : String × List String). is_hash e.0) topics
    → Holds (λ (e : String × List String). every is_hash e.1) topics
    → parse_block_header
        (record {
          maybe_channel_ids = some channel_ids;
          maybe_topics = some topics;
          maybe_version = some version;
        })
        transactions
      ≡ ok (record {
        channel_ids = channel_ids;
        topics = topics;
        version = version;
        transactions = transactions;
      })
unfolding parse_block_header
parse_block_header-accepts version transactions channel_ids topics same whole ids within keys
      values =
    rw (same, parse_block_header, whole, ids, within, keys, values) refl

-- A block of the standard is parsed as it is, where JSON gives it back.
pub parse_block-maybe_of :
    (parse : String → Result MaybeBlock) (contents : String) (b : Block)
    → IsBlock b
    → parse contents ≡ ok (maybe_of b)
    → parse_block parse contents ≡ ok b
unfolding parse_block parse_block_header
parse_block-maybe_of parse contents b (version, whole, ids, within, keys, values) h =
    rw (parse_block, h)
      (parse_block_header-accepts b.version b.transactions b.channel_ids b.topics version whole ids
        within keys values)
