-- ===== src/TransactionManager/Manager/Refinement.antt =====
-- The class of transaction-manager.ts, over a data access that keeps what it is given, against a
-- map from channels to the data that they hold.
use request_network.Base.{
  ◌≡◌, refl, ap, sym, ◌∙◌, ◌⊎◌, inl, inr, true, false, String, Option, none, List, [], ◌∷◌, ◌++◌,
  Result, ok, err, ◌>>=◌, Result-cases, Bool-cases, arith, eq_iff, truthy, str_eq, append,
  if◌then◌else◌,
}
use request_network.TransactionManager.{TimestampedTransaction, DecryptionProvider, Environment}
use request_network.TransactionManager.Transactions.{hash_of}
use request_network.TransactionManager.Manager.{DataAccess, prepare, persist_transaction}
use request_network.TransactionManager.Manager.View.{
  IsStore, Call, View, add, persist_view, persist_view_all, HoldsData, HoldsChannel,
  HoldsChannel-append, RefusesEmpty, hash_of-parses,
}
use request_network.TransactionManager.Manager.Sending.{
  known-clear, known-unknown, Sent, prepare-new, prepare-existing, prepare-missing,
}

module _ {B S : Type 0} (env : Environment B) (provider : Option DecryptionProvider)
    (access : DataAccess S) where
  -- The calls in sequence; one that fails leaves the state as it is.
  unfoldable pub persist_all : S → List Call → S
  persist_all s [] = s
  persist_all s (call ∷ calls) =
      persist_all
        (elim (persist_transaction env provider access s call.contents call.channel_id call.topics
          []) [ ok next ↦ next.0 | err e ↦ s ])
        calls

module _ {B S : Type 0} (env : Environment B) (provider : Option DecryptionProvider)
    (access : DataAccess S) (valid : S → Type 0) where
  -- A valid state of data access holds what a view says, channel by channel.
  abbrev pub Represents : S → View → Type 0
  Represents s view =
      valid s
      × ((j : String)
          → (l : List TimestampedTransaction) × (access.get s j ≡ ok l)
            × HoldsChannel env j l (view j))

  -- One channel after a call: the channel of the call has one more transaction.
  held_after :
      (read : Result (List TimestampedTransaction)) (j : String) (view : View) (call : Call)
      (t : TimestampedTransaction) (l : List TimestampedTransaction)
      → read ≡ ok (if str_eq call.channel_id j then l ++ t ∷ [] else l)
      → HoldsChannel env j l (view j)
      → HoldsData env t call.contents
      → (view call.channel_id ≡ [] → hash_of env call.contents ≡ ok call.channel_id)
      → (l' : List TimestampedTransaction) × (read ≡ ok l')
        × HoldsChannel env j l' (add view call.channel_id call.contents j)
  unfolding add
  held_after read j view call t l reads held one opens =
      elim (Bool-cases (str_eq call.channel_id j)) [
        | inl e ↦
            let same : call.channel_id ≡ j = (eq_iff call.channel_id j).0 e in
            (
              l ++ t ∷ [],
              reads ∙ rw e refl,
              rw e (
                  HoldsChannel-append env j l (view j) t call.contents held one
                    (λ none_yet. opens (rw same none_yet) ∙ ap ok same)),
            )
        | inr e ↦ (l, reads ∙ rw e refl, rw e held)
      ]

  -- What a call leads to, where its data are added to their channel.
  accepted :
      (store : IsStore access valid) (s : S) (view : View) (call : Call) {hash json : String}
      → Represents s view
      → (Sent env provider access) s call hash
      → truthy call.contents ≡ true
      → env.sorted_json call.contents ≡ ok json
      → (view call.channel_id ≡ [] → hash_of env call.contents ≡ ok call.channel_id)
      → (s' : S) × (persist_transaction env provider access s call.contents call.channel_id
            call.topics []
          ≡ ok (s', none))
        × Represents s' (add view call.channel_id call.contents)
  unfolding persist_transaction add
  accepted store s view call {hash} {json} holds sent whole parsed opens =
      let (s', kept, still, (t, same, reads)) =
        store.persists s call.contents call.channel_id (call.topics ++ hash ∷ []) holds.0 whole in
      (
        s',
        rw (sent, kept) refl,
        (
          still,
          λ j.
              let (l, got, held) = holds.1 j in
              held_after (access.get s' j) j view call t l (reads j l got) held
                (same, whole, (json, parsed)) opens,
        ),
      )

  -- A call either succeeds in the specification and in the code, with states that agree, or fails in
  -- both, with the same error.
  abbrev pub Agrees : S → View → Call → Type 0
  Agrees s view call =
      ((next : View) × (persist_view env view call ≡ ok next)
        × ((s' : S) × (persist_transaction env provider access s call.contents call.channel_id
                call.topics []
              ≡ ok (s', none))
            × Represents s' next))
      ⊎ ((e : String) × (persist_view env view call ≡ err e)
          × (persist_transaction env provider access s call.contents call.channel_id call.topics []
              ≡ err e))

  Agrees-existing :
      (l : List TimestampedTransaction) (ds : List String) (store : IsStore access valid)
      (empty : RefusesEmpty env) (s : S) (view : View) (call : Call) {hash : String}
      → Represents s view
      → hash_of env call.contents ≡ ok hash
      → str_eq call.channel_id hash ≡ false
      → access.get s call.channel_id ≡ ok l
      → view call.channel_id ≡ ds
      → HoldsChannel env call.channel_id l ds
      → Agrees s view call
  unfolding persist_view persist_transaction
  Agrees-existing l [] store empty s view call holds hashed new got seen held =
      let missing =
        prepare-missing env provider access s call l hashed new got
          (known-unknown env provider access call.channel_id l held) in
      inr (
        append "Impossible to retrieve the channel: " call.channel_id,
        rw (hashed, ◌>>=◌, new, seen) refl,
        rw missing refl,
      )
  Agrees-existing l (d ∷ ds) store empty s view call holds hashed new got seen held =
      let (whole, (json, parsed)) = hash_of-parses env empty call.contents hashed in
      let known = known-clear env provider access call.channel_id l d ds held in
      inl (
        add view call.channel_id call.contents,
        rw (hashed, ◌>>=◌, new, seen) refl,
        accepted store s view call holds
            (prepare-existing env provider access s call l hashed parsed new got known) whole parsed
            (λ none_yet. absurd (ground arith)),
      )

  persist_transaction-Agrees :
      (store : IsStore access valid) (empty : RefusesEmpty env) (s : S) (view : View) (call : Call)
      → Represents s view
      → Agrees s view call
  unfolding persist_view persist_transaction
  persist_transaction-Agrees store empty s view call holds =
      elim (Result-cases (hash_of env call.contents)) [
        | inr (e, failed) ↦ inr (e, rw failed refl, rw (prepare, failed) refl)
        | inl (hash, hashed) ↦ elim (Bool-cases (str_eq call.channel_id hash)) [
          | inl same ↦
              let (whole, (json, parsed)) = hash_of-parses env empty call.contents hashed in
              let equal : call.channel_id ≡ hash = (eq_iff call.channel_id hash).0 same in
              inl (
                add view call.channel_id call.contents,
                rw (hashed, ◌>>=◌, same) refl,
                accepted store s view call holds
                    (prepare-new env provider access s call hashed parsed same) whole parsed
                    (λ none_yet. hashed ∙ ap ok (sym equal)),
              )
          | inr new ↦
              let (l, got, held) = holds.1 call.channel_id in
              Agrees-existing l (view call.channel_id) store empty s view call holds hashed new got
                refl held
        ]
      ]

  pub persist_all-Represents :
      (store : IsStore access valid) (empty : RefusesEmpty env) (s : S) (view : View)
      (calls : List Call)
      → Represents s view
      → Represents (persist_all env provider access s calls) (persist_view_all env view calls)
  unfolding persist_all persist_view_all
  persist_all-Represents store empty s view [] holds = holds
  persist_all-Represents store empty s view (call ∷ calls) holds =
      elim (persist_transaction-Agrees store empty s view call holds) [
        | inl (next, e, (s', f, after)) ↦
            rw (e, f) (persist_all-Represents store empty s' next calls after)
        | inr (message, e, f) ↦ rw (e, f) (persist_all-Represents store empty s view calls holds)
      ]
