-- ===== src/DataAccess/Block/Laws.antt =====
-- Well-formed blocks: `parseBlock` and `pushTransaction` of packages/data-access/src/block.ts.
use request_network.Base.{
  ok_value, ℕ, ◌+◌, ◌≡◌, refl, true, not, ◌&&◌, String, List, [], ◌∷◌, ◌++◌, Dict, lookup, insert,
  length, length-append, get_or, given, is_some, ok, >>=-eq-ok, throw_if, &&-eq-true, arith,
}
use request_network.Base.Int.{ℤ, pos, negsuc}
use request_network.TransactionManager.{PersistedTransaction}
use request_network.DataAccess.Block.{
  Block, create_empty_block, every, is_hash, has_contents, refers, add_topics, push_transaction,
}
use request_network.DataAccess.Block.Every.{
  Holds, Holds-append, Holds-one, Holds-weaken, Holds-insert_values, Holds-insert_keys,
  Holds-get_or,
}

-- The block standard: each transaction has contents, channels and topics are hashes, and each
-- position of a channel is that of a transaction of the block.
abbrev pub IsBlock : Block → Type 0
IsBlock b =
    (b.version ≡ "0.1.0")
    × Holds has_contents b.transactions
    × Holds (λ e. is_hash e.0) b.channel_ids
    × Holds (λ e. every (refers (length b.transactions)) e.1) b.channel_ids
    × Holds (λ e. is_hash e.0) b.topics
    × Holds (λ e. every is_hash e.1) b.topics

pub create_empty_block-IsBlock : IsBlock create_empty_block
unfolding create_empty_block every
create_empty_block-IsBlock = (refl, refl, refl, refl, refl, refl)

refers_more : (n : ℕ) (p : ℤ) → refers n p ≡ true → refers (n + 1) p ≡ true
unfolding refers
refers_more n (pos m) h = ground arith
refers_more n (negsuc m) h = ground arith

refers_last : (n : ℕ) → refers (n + 1) (pos n) ≡ true
unfolding refers
refers_last n = ground arith

add_topics-hashes :
    (c : String) (topics : List String) (d : Dict (List String))
    → is_hash c ≡ true
    → Holds is_hash topics
    → Holds (λ (e : String × List String). is_hash e.0) d
    → Holds (λ (e : String × List String). every is_hash e.1) d
    → Holds (λ (e : String × List String). is_hash e.0) (add_topics c topics d)
      × Holds (λ (e : String × List String). every is_hash e.1) (add_topics c topics d)
unfolding add_topics every
add_topics-hashes c [] d hc ht hk hv = (hk, hv)
add_topics-hashes c (topic ∷ topics) d hc ht hk hv =
    let (one, more) = &&-eq-true (is_hash topic) (every is_hash topics) ht in
    add_topics-hashes c topics (insert c (get_or (lookup c d) [] ++ topic ∷ []) d) hc more
      (Holds-insert_keys is_hash c (get_or (lookup c d) [] ++ topic ∷ []) d hk hc)
      (Holds-insert_values (every is_hash) c (get_or (lookup c d) [] ++ topic ∷ []) d hv (
        Holds-append is_hash (get_or (lookup c d) []) (topic ∷ []) (Holds-get_or is_hash c d hv)
          (Holds-one is_hash topic one)))

-- A transaction with contents that is pushed to a channel and topics that are hashes leaves a block
-- of the standard one; its positions stay within the block.
pub push_transaction-IsBlock :
    (b : Block) (t : PersistedTransaction) (c : String) (topics : List String) {b' : Block}
    → IsBlock b
    → has_contents t ≡ true
    → is_hash c ≡ true
    → Holds is_hash topics
    → push_transaction b t c topics ≡ ok b'
    → IsBlock b'
unfolding push_transaction
push_transaction-IsBlock b t c topics {b'} (version, contents, ids, within, keys, values) ht hc hk
      h =
    let n : ℕ = length b.transactions in
    let old : List ℤ = get_or (lookup c b.channel_ids) [] in
    let (_, _, last) =
      >>=-eq-ok (throw_if (not (is_some t.contents) && not (given t.encrypted_data)) _) _ h in
    let size : length (b.transactions ++ t ∷ []) ≡ n + 1 =
      omega (arith, length-append b.transactions (t ∷ [])) in
    let (topic_keys, topic_values) = add_topics-hashes c topics b.topics hc hk keys values in
    let grown =
      Holds-weaken (λ (e : String × List ℤ). every (refers n) e.1)
        (λ (e : String × List ℤ). every (refers (n + 1)) e.1) b.channel_ids
        (λ e. Holds-weaken (refers n) (refers (n + 1)) e.1 (refers_more n)) within in
    rw (← ok_value last) (
      version,
      Holds-append has_contents b.transactions (t ∷ []) contents (Holds-one has_contents t ht),
      Holds-insert_keys is_hash c (old ++ pos n ∷ []) b.channel_ids ids hc,
      rw size (
          Holds-insert_values (every (refers (n + 1))) c (old ++ pos n ∷ []) b.channel_ids grown (
            Holds-append (refers (n + 1)) old (pos n ∷ [])
              (Holds-get_or (refers (n + 1)) c b.channel_ids grown)
              (Holds-one (refers (n + 1)) (pos n) (refers_last n)))),
      topic_keys,
      topic_values,
    )
