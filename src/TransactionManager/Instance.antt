-- ===== src/TransactionManager/Instance.antt =====
-- A data access that is a dictionary of channels: what is asked of data access can hold.
use request_network.Base.{
  ok_value, ◌≡◌, refl, ap, ◌∙◌, inl, inr, Bool-cases, String, List, [], ◌∷◌, ◌++◌, Dict, lookup,
  insert, lookup-insert, ok, eq_iff, str_eq, get_or, if◌then◌else◌,
}
use request_network.Types.{TransactionState}
use request_network.TransactionManager.{PersistedTransaction, TimestampedTransaction}
use request_network.TransactionManager.Manager.{DataAccess}
use request_network.TransactionManager.Factory.{clear_persisted}
use request_network.TransactionManager.Manager.View.{IsStore}

abbrev pub stamped : PersistedTransaction → TimestampedTransaction
stamped p = record { state = TransactionState.confirmed; transaction = p; timestamp = 0 }

abbrev pub Store : Type 0
Store = Dict (List TimestampedTransaction)

unfoldable pub channel_of : Store → String → List TimestampedTransaction
channel_of s j = get_or (lookup j s) []

abbrev pub dictionary_access : DataAccess Store
dictionary_access = record {
  persist = λ s p c topics. ok (insert c (channel_of s c ++ stamped p ∷ []) s);
  get = λ s j. ok (channel_of s j);
}

added :
    (s : Store) (p : PersistedTransaction) (c j : String)
    → channel_of (insert c (channel_of s c ++ stamped p ∷ []) s) j
      ≡ (if str_eq c j then channel_of s j ++ stamped p ∷ [] else channel_of s j)
unfolding channel_of
added s p c j = elim (Bool-cases (str_eq c j)) [
  | inl e ↦
      let same : c ≡ j = (eq_iff c j).0 e in
      rw (lookup-insert c j (channel_of s c ++ stamped p ∷ []) s, e, same) refl
  | inr e ↦ rw (lookup-insert c j (channel_of s c ++ stamped p ∷ []) s, e) refl
]

pub dictionary_access-IsStore : IsStore dictionary_access (λ s. Unit)
dictionary_access-IsStore = record {
  persists = λ s d c topics v whole. (
    insert c (channel_of s c ++ stamped (clear_persisted d) ∷ []) s,
    refl,
    tt,
    (
      stamped (clear_persisted d),
      refl,
      λ j l got. ap ok (added s (clear_persisted d) c j) ∙ rw (ok_value got) refl,
    ),
  );
}
