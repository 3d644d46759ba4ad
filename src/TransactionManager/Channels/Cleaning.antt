-- ===== src/TransactionManager/Channels/Cleaning.antt =====
-- What the cleaning of a channel keeps, of `decryptAndCleanChannel` of channel-parser.ts.
use request_network.Base.{
  ◌≡◌, refl, ap, sym, ◌∙◌, ◌⊎◌, inl, inr, true, String, Option, none, some, List, [], ◌∷◌, map, ok,
  ◌>>=◌, >>=-eq-ok, Result-cases, Bool-cases, arith, eq_iff, given, str_eq, if◌then◌else◌,
}
use request_network.Encryption.{EncryptionParameters}
use request_network.TransactionManager.{
  PersistedTransaction, TimestampedTransaction, ChannelType, unknown, clear, encrypted,
  DecryptionProvider, Environment,
}
use request_network.TransactionManager.Transactions.{
  Transaction, clear_transaction, encrypted_transaction, hash_of, get_data, get_hash, get_error,
}
use request_network.TransactionManager.Parser.{Parsed, parse_persisted_transaction}
use request_network.TransactionManager.Channels.{
  Outcome, valid, ignored, Cleaned, valid_of, ignored_of, get_channel_type_and_channel_key,
  decrypt_and_clean_channel, type_of, settle, finish, clean, clean_all, keep, reject,
}

-- The type that a persisted transaction looks like.
abbrev pub kind : PersistedTransaction → ChannelType
kind p = if given p.contents then clear else encrypted

module _ {B : Type 0} (env : Environment B) (provider : Option DecryptionProvider) where
  parse-kind :
      (p : PersistedTransaction) (type : ChannelType) (key : Option EncryptionParameters)
      (method : Option String) {parsed : Parsed}
      → parse_persisted_transaction provider p type key method ≡ ok parsed
      → (type_of parsed ≡ kind p) × ((type ≡ unknown) ⊎ (type ≡ kind p))
  unfolding parse_persisted_transaction
  parse-kind p unknown key method h = (ground arith, inl refl)
  parse-kind p clear key method h = (ground arith, inr (ground arith))
  parse-kind p encrypted key method h = (ground arith, inr (ground arith))

  hash-data :
      (t : Transaction) {contents hash : String}
      → get_data env t ≡ ok contents
      → get_hash env t ≡ ok hash
      → hash_of env contents ≡ ok hash
  unfolding get_hash get_data
  hash-data (clear_transaction c) h k = ground arith
  hash-data (encrypted_transaction s key) {contents} h k =
      let (c, got, hashed) = >>=-eq-ok (get_data env (encrypted_transaction s key)) _ k in
      elim (Result-cases (hash_of env contents)) [
        | inl (found, e) ↦ ground arith
        | inr (message, e) ↦ ground arith
      ]

  -- What a list of outcomes is to the list of transactions that it answers, in a channel of a type:
  -- an ignored transaction is named as it is; a valid one keeps its state and time, holds data that
  -- are those of a clear transaction where it is one, looks like the type of the channel, and, where
  -- the type is not known yet, has the channel identifier as its hash.
  abbrev pub Keeps : String → ChannelType → TimestampedTransaction → TimestampedTransaction → Type 0
  Keeps channel_id type v t =
      (v.state ≡ t.state)
      × (v.timestamp ≡ t.timestamp)
      × ((contents : String) × (v.transaction.contents ≡ some contents)
          × (given t.transaction.contents ≡ true → t.transaction.contents ≡ some contents)
          × (type ≡ unknown → hash_of env contents ≡ ok channel_id))
      × ((type ≡ unknown) ⊎ (type ≡ kind t.transaction))

  abbrev pub Sound : String → ChannelType → List Outcome → List TimestampedTransaction → Type 0
  Sound channel_id type [] [] = Unit
  Sound channel_id type (ignored i ∷ os) (t ∷ ts) =
      (i.transaction ≡ t) × Sound channel_id type os ts
  Sound channel_id type (valid v ∷ os) (t ∷ ts) =
      Keeps channel_id type v t × Sound channel_id (kind t.transaction) os ts
  Sound channel_id type _ _ = ⊥

  abbrev StepSound : String → ChannelType → Outcome → ChannelType → TimestampedTransaction → Type 0
  StepSound channel_id type (ignored i) next t = (i.transaction ≡ t) × (next ≡ type)
  StepSound channel_id type (valid v) next t =
      Keeps channel_id type v t × (next ≡ kind t.transaction)

  Sound-cons :
      (channel_id : String) (type : ChannelType) (o : Outcome) (next : ChannelType)
      (t : TimestampedTransaction) (os : List Outcome) (ts : List TimestampedTransaction)
      → StepSound channel_id type o next t
      → Sound channel_id next os ts
      → Sound channel_id type (o ∷ os) (t ∷ ts)
  Sound-cons channel_id type (ignored i) next t os ts (same, stays) h =
      let e : type ≡ next = sym stays in (same, rw e h)
  Sound-cons channel_id type (valid v) next t os ts (keeps, turns) h =
      let e : kind t.transaction ≡ next = sym turns in (keeps, rw e h)

  parse-contents :
      (p : PersistedTransaction) (type : ChannelType) (key : Option EncryptionParameters)
      (method : Option String) {parsed : Parsed} {contents : String}
      → parse_persisted_transaction provider p type key method ≡ ok parsed
      → get_data env parsed.transaction ≡ ok contents
      → given p.contents ≡ true
      → p.contents ≡ some contents
  unfolding parse_persisted_transaction get_data
  parse-contents p type key method h k g = ground arith

  settle-fixes :
      (channel_id : String) (type : ChannelType) (method : Option String) (p : PersistedTransaction)
      (parsed : Parsed) {next : ChannelType × Option String}
      → settle env provider channel_id parsed (type, method) ≡ ok (some next)
      → type_of parsed ≡ kind p
      → (type ≡ unknown) ⊎ (type ≡ kind p)
      → (next.0 ≡ kind p) × (type ≡ unknown → get_hash env parsed.transaction ≡ ok channel_id)
  unfolding settle
  settle-fixes channel_id unknown method p parsed h k same =
      let (hash, got, last) = >>=-eq-ok (get_hash env parsed.transaction) _ h in
      elim (Bool-cases (str_eq hash channel_id)) [
        | inl e ↦
            let equal : hash ≡ channel_id = (eq_iff hash channel_id).0 e in
            (ground arith, λ is. got ∙ ap ok equal)
        | inr e ↦ ground arith
      ]
  settle-fixes channel_id clear method p parsed h k same = (ground arith, λ is. ground arith)
  settle-fixes channel_id encrypted method p parsed h k same = (ground arith, λ is. ground arith)

  finish-StepSound :
      (channel_id : String) (key : Option EncryptionParameters) (type : ChannelType)
      (method : Option String) (t : TimestampedTransaction) (parsed : Parsed)
      (s : Option (ChannelType × Option String)) {o : Outcome} {next : ChannelType × Option String}
      → parse_persisted_transaction provider t.transaction type key method ≡ ok parsed
      → settle env provider channel_id parsed (type, method) ≡ ok s
      → finish env provider parsed t (type, method) s ≡ ok (o, next)
      → StepSound channel_id type o next.0 t
  unfolding finish
  finish-StepSound channel_id key type method t parsed none {o} {next} read found h =
      let (same, stays) : (o
            ≡ reject "as first transaction, the hash of the transaction do not match the channelId"
                t)
          × (next ≡ (type, method)) =
        ground arith in
      rw (same, stays) (refl, refl)
  finish-StepSound channel_id key type method t parsed (some n) {o} {next} read found h =
      let (contents, got, last) = >>=-eq-ok (get_data env parsed.transaction) _ h in
      let (same, stays) : (o ≡ keep contents t) × (next ≡ n) = ground arith in
      let (looks, fits) = parse-kind t.transaction type key method read in
      let (settled, hashed) =
        settle-fixes channel_id type method t.transaction parsed found looks fits in
      rw (same, stays)
        (
          (
            refl,
            refl,
            (
              contents,
              refl,
              λ g. parse-contents t.transaction type key method read got g,
              λ is. hash-data parsed.transaction got (hashed is),
            ),
            fits,
          ),
          settled,
        )

  clean-StepSound :
      (channel_id : String) (key : Option EncryptionParameters) (type : ChannelType)
      (method : Option String) (t : TimestampedTransaction) {o : Outcome}
      {next : ChannelType × Option String}
      → clean env provider channel_id key (type, method) t ≡ ok (o, next)
      → StepSound channel_id type o next.0 t
  unfolding clean
  clean-StepSound channel_id key type method t {o} {next} h =
      elim (Result-cases (parse_persisted_transaction provider t.transaction type key method)) [
        | inr (message, e) ↦
            let (same, stays) : (o ≡ reject message t) × (next ≡ (type, method)) = ground arith in
            rw (same, stays) (refl, refl)
        | inl (parsed, e) ↦ elim (Bool-cases (str_eq (get_error env parsed.transaction) "")) [
          | inr wrong ↦
              let (same, stays) : (o ≡ reject (get_error env parsed.transaction) t)
                  × (next ≡ (type, method)) =
                ground arith in
              rw (same, stays) (refl, refl)
          | inl right ↦
              let then_finish : (settle env provider channel_id parsed (type, method)
                    >>= finish env provider parsed t (type, method))
                  ≡ ok (o, next) =
                ground arith in
              let (s, found, rest) =
                >>=-eq-ok (settle env provider channel_id parsed (type, method)) _ then_finish in
              finish-StepSound channel_id key type method t parsed s e found rest
        ]
      ]

  clean_all-Sound :
      (channel_id : String) (key : Option EncryptionParameters) (type : ChannelType)
      (method : Option String) (ts : List TimestampedTransaction) {os : List Outcome}
      {m : Option String}
      → clean_all env provider channel_id key (type, method) ts ≡ ok (os, m)
      → Sound channel_id type os ts
  unfolding clean_all
  clean_all-Sound channel_id key type method [] {os} h = let e : os ≡ [] = ground arith in rw e tt
  clean_all-Sound channel_id key type method (t ∷ ts) {os} {m} h =
      let ((o, (type', method')), first, more) =
        >>=-eq-ok (clean env provider channel_id key (type, method) t) _ h in
      let ((os', m'), rest, last) =
        >>=-eq-ok (clean_all env provider channel_id key (type', method') ts) _ more in
      let e : os ≡ o ∷ os' = ground arith in
      rw e (
        Sound-cons channel_id type o type' t os' ts
          (clean-StepSound channel_id key type method t first)
          (clean_all-Sound channel_id key type' method' ts rest))

  -- What `decryptAndCleanChannel` returns, when it returns, is one outcome for each transaction, in
  -- order: an ignored transaction is named unchanged; a valid one keeps its state and its time, the
  -- data of a clear transaction unchanged; the first valid one has the channel identifier as the
  -- hash of its data, and every later one is clear or encrypted as it is.
  pub decrypt_and_clean_channel-Sound :
      (channel_id : String) (ts : List TimestampedTransaction) {c : Cleaned}
      → decrypt_and_clean_channel env provider channel_id ts ≡ ok c
      → (os : List Outcome) × (c.transactions ≡ map valid_of os)
        × (c.ignored_transactions ≡ map ignored_of os)
        × Sound channel_id unknown os ts
  unfolding decrypt_and_clean_channel
  decrypt_and_clean_channel-Sound channel_id ts {c} h =
      let key : Option EncryptionParameters =
        (get_channel_type_and_channel_key env provider ts).channel_key in
      let ((os, m), cleaned, last) =
        >>=-eq-ok (clean_all env provider channel_id key (unknown, none) ts) _ h in
      (os, ground arith, ground arith, clean_all-Sound channel_id key unknown none ts cleaned)

  -- The result, from the channel key that is found and the outcomes that it leads to.
  pub decrypt_and_clean_channel-outcomes :
      (channel_id : String) (ts : List TimestampedTransaction) {key : Option EncryptionParameters}
      {os : List Outcome} {m : Option String}
      → (get_channel_type_and_channel_key env provider ts).channel_key ≡ key
      → clean_all env provider channel_id key (unknown, none) ts ≡ ok (os, m)
      → decrypt_and_clean_channel env provider channel_id ts
        ≡ ok (record {
          encryption_method = m;
          transactions = map valid_of os;
          ignored_transactions = map ignored_of os;
        })
  unfolding decrypt_and_clean_channel
  decrypt_and_clean_channel-outcomes channel_id ts h e = rw (h, e) refl
