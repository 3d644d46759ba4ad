-- ===== src/TransactionManager/Manager/View.antt =====
-- The manager with clear channels, transaction-manager.ts, against a map from channels to the data
-- that they hold.
use request_network.Base.{
  ◌≡◌, refl, inl, inr, true, false, String, List, [], ◌∷◌, ◌++◌, Result, ok, err, ◌>>=◌, >>=-eq-ok,
  Bool-cases, arith, eq_iff, truthy, str_eq, append, if◌then◌else◌,
}
use request_network.TransactionManager.{TimestampedTransaction, Environment}
use request_network.TransactionManager.Transactions.{hash_of}
use request_network.TransactionManager.Factory.{clear_persisted}
use request_network.TransactionManager.Manager.{DataAccess}
use request_network.Base.{truthy, true}
use request_network.TransactionManager.Factory.{clear_persisted}

-- What data access promises of clear data, in its valid states: it keeps what is persisted, and
-- returns it at the end of its channel.
pub record IsStore {S : Type 0} (access : DataAccess S) (valid : S → Type 0) : Type 0 where
  pub persists :
      (s : S) (d : String) (c : String) (topics : List String)
      → valid s
      → truthy d ≡ true
      → (s' : S) × (access.persist s (clear_persisted d) c topics ≡ ok s')
        × valid s'
        × ((t : TimestampedTransaction) × (t.transaction ≡ clear_persisted d)
            × ((j : String) (l : List TimestampedTransaction)
                → access.get s j ≡ ok l
                → access.get s' j ≡ ok (if str_eq c j then l ++ t ∷ [] else l)))

-- The call of `persistTransaction` without encryption parameters.
pub record Call : Type 0 where
  pub contents : String
  pub channel_id : String
  pub topics : List String

abbrev pub View : Type 0
View = String → List String

unfoldable pub add : View → String → String → View
add view channel_id contents j = if str_eq channel_id j then view j ++ contents ∷ [] else view j

module _ {B : Type 0} (env : Environment B) where
  -- The specification: data whose hash is the channel identifier open the channel, or are added once
  -- more; other data are added to a channel that exists.
  unfoldable pub persist_view : View → Call → Result View
  unfolding add
  persist_view view call = do
    hash ← hash_of env call.contents
    elim (str_eq call.channel_id hash) [
      | true ↦ ok (add view call.channel_id call.contents)
      | false ↦ elim (view call.channel_id) [
        | [] ↦ err (append "Impossible to retrieve the channel: " call.channel_id)
        | d ∷ ds ↦ ok (add view call.channel_id call.contents)
      ]
    ]

  -- A call that fails leaves the view as it is.
  unfoldable pub persist_view_all : View → List Call → View
  unfolding persist_view
  persist_view_all view [] = view
  persist_view_all view (call ∷ calls) =
      persist_view_all (elim (persist_view view call) [ ok next ↦ next | err e ↦ view ]) calls

  abbrev pub HoldsData : TimestampedTransaction → String → Type 0
  HoldsData t d =
      (t.transaction ≡ clear_persisted d)
      × (truthy d ≡ true)
      × ((json : String) × (env.sorted_json d ≡ ok json))

  abbrev pub AllHold : List TimestampedTransaction → List String → Type 0
  AllHold [] [] = Unit
  AllHold (t ∷ ts) (d ∷ ds) = HoldsData t d × AllHold ts ds
  AllHold _ _ = ⊥

  -- The transactions of a channel that hold a list of data, of which the first names the channel.
  abbrev pub HoldsChannel : String → List TimestampedTransaction → List String → Type 0
  HoldsChannel j [] [] = Unit
  HoldsChannel j (t ∷ ts) (d ∷ ds) = (hash_of env d ≡ ok j) × HoldsData t d × AllHold ts ds
  HoldsChannel j _ _ = ⊥

  AllHold-append :
      (ts : List TimestampedTransaction) (ds : List String) (t : TimestampedTransaction)
      (d : String)
      → AllHold ts ds
      → HoldsData t d
      → AllHold (ts ++ t ∷ []) (ds ++ d ∷ [])
  AllHold-append [] [] t d h one = (one, tt)
  AllHold-append (u ∷ ts) (e ∷ ds) t d (h, more) one = (h, AllHold-append ts ds t d more one)
  AllHold-append [] (e ∷ ds) t d h one = absurd h
  AllHold-append (u ∷ ts) [] t d h one = absurd h

  pub HoldsChannel-append :
      (j : String) (ts : List TimestampedTransaction) (ds : List String)
      (t : TimestampedTransaction) (d : String)
      → HoldsChannel j ts ds
      → HoldsData t d
      → (ds ≡ [] → hash_of env d ≡ ok j)
      → HoldsChannel j (ts ++ t ∷ []) (ds ++ d ∷ [])
  HoldsChannel-append j [] [] t d h one opens = (opens refl, one, tt)
  HoldsChannel-append j (u ∷ ts) (e ∷ ds) t d (hash, h, more) one opens =
      (hash, h, AllHold-append ts ds t d more one)
  HoldsChannel-append j [] (e ∷ ds) t d h one opens = absurd h
  HoldsChannel-append j (u ∷ ts) [] t d h one opens = absurd h

  abbrev pub RefusesEmpty : Type 0
  RefusesEmpty = (e : String) × (env.sorted_json "" ≡ err e)

  -- Data that have a hash are JSON, and are not empty.
  pub hash_of-parses :
      RefusesEmpty
      → (d : String) {hash : String} → hash_of env d ≡ ok hash
      → (truthy d ≡ true) × ((json : String) × (env.sorted_json d ≡ ok json))
  unfolding hash_of
  hash_of-parses (e, refused) d h =
      let (json, parsed, rest) = >>=-eq-ok (env.sorted_json d) _ h in
      elim (Bool-cases (truthy d)) [
        | inl whole ↦ (whole, (json, parsed))
        | inr empty ↦ let same : d ≡ "" = (eq_iff d "").0 (ground arith) in absurd (ground arith)
      ]
