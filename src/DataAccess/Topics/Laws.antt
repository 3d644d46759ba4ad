-- ===== src/DataAccess/Topics/Laws.antt =====
-- The transactions of one channel in the result of getChannelsByMultipleTopics of data-read.ts.
use request_network.Base.{
  ◌≡◌, refl, ap, sym, ◌∙◌, Bool, true, false, ◌&&◌, ◌||◌, String, Option, List, [], ◌∷◌, ◌++◌, map,
  filter, Dict, lookup, insert, lookup-insert, get_or, Result, ok, str_eq, Bool-cases, eq_iff,
  arith, if◌then◌else◌,
}
use request_network.Base.{inl, inr}
use request_network.DataAccess.Indexer.{IndexedTransaction}
use request_network.DataAccess.Pending.{PendingStore, includes_topic, find_by_topics}
use request_network.DataAccess.Topics.{
  TimestampBoundaries, ChannelTransaction, Timestamped, is_updated, to_timestamped, by_channels,
  topic_transactions, indexed_transaction, pending_transaction, get_channels_by_multiple_topics,
}

-- The transactions of a channel, and whether one of them is within the boundaries.
abbrev pub of_channel : String → List ChannelTransaction → List ChannelTransaction
of_channel c txs = filter (λ tx. str_eq tx.channel_id c) txs

unfoldable pub has_update : Option TimestampBoundaries → String → List ChannelTransaction → Bool
has_update updated_between c [] = false
has_update updated_between c (tx ∷ txs) =
    (is_updated updated_between tx && str_eq tx.channel_id c) || has_update updated_between c txs

append_assoc : {A : Type 0} (a b c : List A) → (a ++ b) ++ c ≡ a ++ (b ++ c)
append_assoc [] b c = refl
append_assoc (x ∷ a) b c = ap (λ l. x ∷ l) (append_assoc a b c)

append_nil : {A : Type 0} (a : List A) → a ++ [] ≡ a
append_nil [] = refl
append_nil (x ∷ a) = ap (λ l. x ∷ l) (append_nil a)

-- One more transaction in the list of its channel.
lookup-pushed :
    (a c : String) (t : Timestamped) (prev : Dict (List Timestamped)) (rest : List Timestamped)
    → get_or (lookup c (insert a (get_or (lookup a prev) [] ++ t ∷ []) prev)) [] ++ rest
      ≡ get_or (lookup c prev) [] ++ (if str_eq a c then t ∷ rest else rest)
lookup-pushed a c t prev rest = elim (Bool-cases (str_eq a c)) [
  | inl same ↦
      let equal : a ≡ c = (eq_iff a c).0 same in
      rw (lookup-insert a c (get_or (lookup a prev) [] ++ t ∷ []) prev, same, equal)
        (append_assoc (get_or (lookup c prev) []) (t ∷ []) rest)
  | inr other ↦ rw (lookup-insert a c (get_or (lookup a prev) [] ++ t ∷ []) prev, other) refl
]

map-kept :
    (b : Bool) (tx : ChannelTransaction) (txs : List ChannelTransaction)
    → map to_timestamped (if b then tx ∷ txs else txs)
      ≡ (if b then to_timestamped tx ∷ map to_timestamped txs else map to_timestamped txs)
map-kept true tx txs = refl
map-kept false tx txs = refl

lookup-by_channels :
    (c : String) (prev : Dict (List Timestamped)) (txs : List ChannelTransaction)
    → get_or (lookup c (by_channels prev txs)) []
      ≡ get_or (lookup c prev) [] ++ map to_timestamped (of_channel c txs)
unfolding by_channels
lookup-by_channels c prev [] = sym (append_nil (get_or (lookup c prev) []))
lookup-by_channels c prev (tx ∷ txs) =
    lookup-by_channels c
      (insert tx.channel_id (get_or (lookup tx.channel_id prev) [] ++ to_timestamped tx ∷ []) prev)
      txs
    ∙ lookup-pushed tx.channel_id c (to_timestamped tx) prev (map to_timestamped (of_channel c txs))
    ∙ ap (λ l. get_or (lookup c prev) [] ++ l)
        (sym (map-kept (str_eq tx.channel_id c) tx (of_channel c txs)))

of_channel-filter :
    (c : String) (channels : List String) (txs : List ChannelTransaction)
    → of_channel c (filter (λ tx. includes_topic channels tx.channel_id) txs)
      ≡ (if includes_topic channels c then of_channel c txs else [])
of_channel-filter c channels [] = ground arith
of_channel-filter c channels (tx ∷ txs) =
    ground (arith, eq_iff tx.channel_id c, of_channel-filter c channels txs)

includes_topic-filter :
    (updated_between : Option TimestampBoundaries) (c : String) (txs : List ChannelTransaction)
    → includes_topic (map (λ x. x.channel_id) (filter (is_updated updated_between) txs)) c
      ≡ has_update updated_between c txs
unfolding includes_topic has_update
includes_topic-filter updated_between c [] = refl
includes_topic-filter updated_between c (tx ∷ txs) =
    ground (arith, includes_topic-filter updated_between c txs)

module _ (by_topics : List String → Result (List IndexedTransaction)) where
  -- Where the index answers, the reading by topics returns, for each channel, every transaction of
  -- the channel among those that the index has for the topics and those that are pending, in this
  -- order, where one of them is within the boundaries or there are no boundaries, and nothing else.
  pub get_channels_by_multiple_topics_lem :
      (store : PendingStore) (topics : List String) (updated_between : Option TimestampBoundaries)
      {indexed : List IndexedTransaction}
      → by_topics topics ≡ ok indexed
      → let txs =
          map indexed_transaction indexed
          ++ map pending_transaction (find_by_topics store topics) in
        (channels : Dict (List Timestamped)) × (get_channels_by_multiple_topics by_topics store
            topics updated_between
          ≡ ok channels)
        × ((c : String)
            → get_or (lookup c channels) []
              ≡ map to_timestamped
                  (if has_update updated_between c txs then of_channel c txs else []))
  unfolding get_channels_by_multiple_topics topic_transactions lookup
  get_channels_by_multiple_topics_lem store topics updated_between {indexed} h =
      let txs =
        map indexed_transaction indexed ++ map pending_transaction (find_by_topics store topics) in
      let updated = map (λ x. x.channel_id) (filter (is_updated updated_between) txs) in
      (
        by_channels [] (filter (λ tx. includes_topic updated tx.channel_id) txs),
        rw (get_channels_by_multiple_topics, topic_transactions, h) refl,
        λ c.
            lookup-by_channels c [] (filter (λ tx. includes_topic updated tx.channel_id) txs)
            ∙ ap (map to_timestamped) (
                of_channel-filter c updated txs
                ∙ ap (λ b. if b then of_channel c txs else [])
                    (includes_topic-filter updated_between c txs)),
      )
