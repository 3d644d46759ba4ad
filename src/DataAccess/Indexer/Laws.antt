-- ===== src/DataAccess/Indexer/Laws.antt =====
-- A transaction that is written in a block of its own, and read through the index.
use request_network.Base.{
  Option-cases, Result-cases, inl, inr, lookup-insert, ◌≢◌, eq_iff, str_eq, false, filter, Bool,
  arith, ok_value, ◌≡◌, refl, ap, sym, ◌∙◌, true, not, String, List, [], ◌∷◌, ◌++◌, lookup, insert,
  get_or, str_eq_refl, Result, ok, ◌>>=◌, >>=-eq-ok, throw_if, given, is_some, ◌&&◌,
}
use mathlib.Core.List.{append_assoc}
use request_network.Base.Int.{pos}
use request_network.TransactionManager.{PersistedTransaction}
use request_network.DataAccess.Block.{
  Block, MaybeBlock, create_empty_block, is_hash, has_contents, parse_block, push_transaction,
  add_topics, get_transaction_from_position, at,
}
use request_network.DataAccess.Block.Every.{Holds}
use request_network.DataAccess.Block.Laws.{
  IsBlock, create_empty_block-IsBlock, push_transaction-IsBlock,
}
use request_network.DataAccess.Block.Parsing.{maybe_of, parse_block-maybe_of}
use request_network.DataAccess.Indexer.{
  Entry, Item, IndexedTransaction, Index, array_get, array_add, add_index, items_of, parse_entries,
  index_items, parse_documents, get_indexed_by_channel_id, is_confirmed,
}

-- The index before anything is added.
abbrev pub empty_index : Index
empty_index = record { channel_to_locations = []; topic_to_channels = [] }

-- The transaction of a stored block, as the index returns it.
abbrev pub indexed : Entry → String → PersistedTransaction → IndexedTransaction
indexed entry channel_id transaction = record {
  block_number = get_or entry.meta.block_number 0;
  block_timestamp = get_or entry.meta.block_timestamp 0;
  channel_id = channel_id;
  hash = entry.id;
  size = get_or entry.meta.size 0;
  smart_contract_address = get_or entry.meta.smart_contract_address "";
  transaction_hash = get_or entry.meta.transaction_hash "";
  transaction = transaction;
}

abbrev single_block : PersistedTransaction → String → List String → Block
single_block t c topics = record {
  channel_ids = (c, pos 0 ∷ []) ∷ [];
  topics = add_topics c topics [];
  version = "0.1.0";
  transactions = t ∷ [];
}

pushed :
    (t : PersistedTransaction) (c : String) (topics : List String) {b : Block}
    → push_transaction create_empty_block t c topics ≡ ok b
    → b ≡ single_block t c topics
unfolding push_transaction create_empty_block lookup insert
pushed t c topics h =
    let (_, _, last) =
      >>=-eq-ok (throw_if (not (is_some t.contents) && not (given t.encrypted_data)) _) _ h in
    sym (ok_value last)

module _ (parse : String → Result MaybeBlock) (read_many : List String → Result (List Entry)) where
  entries_one :
      (entry : Entry) (b : Block)
      → parse_block parse entry.contents ≡ ok b
      → parse_entries parse read_many (entry ∷ []) ≡ ok (items_of entry b b.channel_ids ++ [])
  unfolding parse_entries
  entries_one entry b parsed = rw (parse_entries, parsed) refl

  other_text : (c j : String) → j ≢ c → str_eq c j ≡ false
  other_text c j h = ground (arith, eq_iff c j)

  parse_entries-append :
      (a b : List Entry) {x y : List Item}
      → parse_entries parse read_many a ≡ ok x
      → parse_entries parse read_many b ≡ ok y
      → parse_entries parse read_many (a ++ b) ≡ ok (x ++ y)
  unfolding parse_entries
  parse_entries-append [] b {x} {y} h k = k ∙ ap (λ l. ok (l ++ y)) (ok_value h)
  parse_entries-append (e ∷ a) b {x} {y} h k =
      let (block, parsed, h₁) = >>=-eq-ok (parse_block parse e.contents) _ h in
      let (rest, more, last) = >>=-eq-ok (parse_entries parse read_many a) _ h₁ in
      rw (parsed, parse_entries-append a b more k)
        (ap ok (sym (append_assoc (items_of e block block.channel_ids) rest y))
          ∙ ap (λ l. ok (l ++ y)) (ok_value last))

  index_items-append :
      (a b : List Item) {x y : List IndexedTransaction}
      → index_items parse read_many a ≡ ok x
      → index_items parse read_many b ≡ ok y
      → index_items parse read_many (a ++ b) ≡ ok (x ++ y)
  unfolding index_items
  index_items-append [] b {x} {y} h k = k ∙ ap (λ l. ok (l ++ y)) (ok_value h)
  index_items-append (item ∷ a) b {x} {y} h k =
      elim (Result-cases (index_items parse read_many a)) [
        | inl (rest, m) ↦ elim (Option-cases item.item_transaction) [
          | inl missing ↦ ground (arith, missing)
          | inr (t, given_t) ↦ ground (arith, given_t, m, index_items-append a b m k)
        ]
        | inr (e, m) ↦ elim (Option-cases item.item_transaction) [
          | inl missing ↦ ground (arith, missing)
          | inr (t, given_t) ↦ ground (arith, given_t, m)
        ]
      ]

  filter-append :
      {A : Type 0} (p : A → Bool) (a b : List A) → filter p (a ++ b) ≡ filter p a ++ filter p b
  filter-append p [] b = refl
  filter-append p (x ∷ a) b = ground (arith, filter-append p a b)

  -- The documents at more places are those at the first ones and then the new one.
  documents_more :
      (places : List String) (es : List Entry) (entry : Entry) (t : PersistedTransaction)
      (c : String) (topics : List String) {old : List IndexedTransaction}
      → read_many places ≡ ok es
      → read_many (places ++ entry.id ∷ []) ≡ ok (es ++ entry ∷ [])
      → is_confirmed entry.meta.state ≡ true
      → parse_block parse entry.contents ≡ ok (single_block t c topics)
      → parse_documents parse read_many places ≡ ok old
      → parse_documents parse read_many (places ++ entry.id ∷ [])
        ≡ ok (old ++ indexed entry c t ∷ [])
  unfolding parse_documents index_items items_of get_transaction_from_position at
  documents_more places es entry t c topics {old} read read_more confirmed parsed h =
      let kept = filter (λ (e : Entry). is_confirmed e.meta.state) es in
      let (es', read', h₁) = >>=-eq-ok (read_many places) _ h in
      let same : es' ≡ es = ok_value (sym read' ∙ read) in
      let (items, entries, items_ok) =
        >>=-eq-ok
          (parse_entries parse read_many (filter (λ (e : Entry). is_confirmed e.meta.state) es')) _
          h₁ in
      let last : filter (λ (e : Entry). is_confirmed e.meta.state) (entry ∷ []) ≡ entry ∷ [] =
        rw confirmed refl in
      let entries' : parse_entries parse read_many kept ≡ ok items = rw (← same) entries in
      rw
        (
          parse_documents,
          read_more,
          filter-append (λ (e : Entry). is_confirmed e.meta.state) es (entry ∷ []),
          last,
          parse_entries-append kept (entry ∷ []) entries'
              (entries_one entry (single_block t c topics) parsed),
        )
        (index_items-append items
          (items_of entry (single_block t c topics) ((c, pos 0 ∷ []) ∷ []) ++ []) items_ok refl)

  -- A transaction with contents that is written to a channel and topics that are hashes, in a block
  -- of its own, and is indexed at the place where it is stored, is returned for the channel behind all
  -- that the index returned for it before, once the storage holds it as confirmed and JSON gives the
  -- block back; the other channels are returned as before. The storage returns the entry of the new
  -- place behind those of the earlier ones.
  pub get_indexed_by_channel_id-written :
      (index : Index) (es : List Entry) (entry : Entry) (t : PersistedTransaction) (c : String)
      (topics : List String) {b : Block} {old : List IndexedTransaction}
      → push_transaction create_empty_block t c topics ≡ ok b
      → has_contents t ≡ true
      → is_hash c ≡ true
      → Holds is_hash topics
      → parse entry.contents ≡ ok (maybe_of b)
      → read_many (array_get index.channel_to_locations c) ≡ ok es
      → read_many (array_get index.channel_to_locations c ++ entry.id ∷ []) ≡ ok (es ++ entry ∷ [])
      → is_confirmed entry.meta.state ≡ true
      → get_indexed_by_channel_id parse read_many index c ≡ ok old
      → (get_indexed_by_channel_id parse read_many (add_index index c topics entry.id) c
          ≡ ok (old ++ indexed entry c t ∷ []))
        × ((j : String)
            → j ≢ c
            → get_indexed_by_channel_id parse read_many (add_index index c topics entry.id) j
              ≡ get_indexed_by_channel_id parse read_many index j)
  unfolding get_indexed_by_channel_id add_index array_add array_get
  get_indexed_by_channel_id-written index es entry t c topics {b} {old} made contents hashed
        topics_hashed json read read_more confirmed before =
      let places = array_get index.channel_to_locations c in
      let standard : IsBlock b =
        push_transaction-IsBlock create_empty_block t c topics create_empty_block-IsBlock contents
          hashed topics_hashed made in
      let parsed : parse_block parse entry.contents ≡ ok (single_block t c topics) =
        parse_block-maybe_of parse entry.contents b standard json
        ∙ ap ok (pushed t c topics made) in
      let (all, documents, last) = >>=-eq-ok (parse_documents parse read_many places) _ before in
      let held : array_get (add_index index c topics entry.id).channel_to_locations c
          ≡ places ++ entry.id ∷ [] =
        rw (lookup-insert c c (places ++ entry.id ∷ []) index.channel_to_locations, str_eq_refl c)
          refl in
      (
        ap
              (λ ls. parse_documents parse read_many ls >>= λ found.
                ok (filter (λ x. str_eq x.channel_id c) found))
              held
            ∙ rw
                (
                  documents_more places es entry t c topics read read_more confirmed parsed
                      documents,
                  filter-append (λ (x : IndexedTransaction). str_eq x.channel_id c) all
                      (indexed entry c t ∷ []),
                  str_eq_refl c,
                )
                (ap (λ l. ok (l ++ indexed entry c t ∷ [])) (ok_value last)),
        λ j other.
            rw
              (
                lookup-insert c j (places ++ entry.id ∷ []) index.channel_to_locations,
                other_text c j other,
              )
              refl,
      )
