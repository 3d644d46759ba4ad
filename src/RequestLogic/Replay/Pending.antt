-- ===== src/RequestLogic/Replay/Pending.antt =====
-- Properties of `removeOldPendingTransactions` of request-logic.ts.
use mathlib.Core.List.{append-nil, append_assoc}
use request_network.Base.{
  ◌≡◌, refl, sym, ap, ◌∙◌, Bool, true, false, Option, none, some, List, [], ◌∷◌, ◌++◌, length, map,
  not, length-append, filter, All, arith, Bool-cases, inl, inr, ◌⊎◌,
}
use request_network.RequestLogic.Replay.{
  Ignored, raw, Transaction, is_confirmed, is_pending, remove_loop, reverse,
  remove_old_pending_transactions, not_null,
}

abbrev pub Confirmed : Transaction → Type 0
Confirmed t = is_confirmed t.state ≡ true

abbrev pub Pending : Transaction → Type 0
Pending t = is_pending t.state ≡ true

abbrev confirmed : Transaction → Bool
confirmed t = is_confirmed t.state

pub state-cases :
    (t : Transaction)
    → Confirmed t
      ⊎ ((is_confirmed t.state ≡ false) × Pending t
          ⊎ (is_confirmed t.state ≡ false) × (is_pending t.state ≡ false))
state-cases t = ground arith

abbrev unconfirmed : Transaction → Bool
unconfirmed t = not (is_confirmed t.state)

abbrev pending : Transaction → Bool
pending t = is_pending t.state

abbrev not_pending : Transaction → Bool
not_pending t = not (is_pending t.state)

abbrev pub Unconfirmed : Transaction → Type 0
Unconfirmed t = is_confirmed t.state ≡ false

-- The report of a transaction that is removed.
abbrev pub superseded : Transaction → Ignored
superseded t = raw "Confirmed transaction newer than this pending transaction" t

-- Past a confirmed transaction the confirmed ones are kept, and the others removed.
remove_loop-found :
    (l : List (Option Transaction))
    → ((remove_loop true l).0 ≡ map superseded (filter unconfirmed (not_null l)))
      × ((remove_loop true l).1 ≡ filter confirmed (not_null l))
unfolding remove_loop not_null
remove_loop-found [] = (refl, refl)
remove_loop-found (none ∷ l) = remove_loop-found l
remove_loop-found (some t ∷ l) = elim (state-cases t) [
  | inl c ↦ rw c ((remove_loop-found l).0, ap (◌∷◌ t) (remove_loop-found l).1)
  | inr (inl (c, p)) ↦
      rw (c, p) (ap (◌∷◌ (superseded t)) (remove_loop-found l).0, (remove_loop-found l).1)
  | inr (inr (c, p)) ↦
      rw (c, p) (ap (◌∷◌ (superseded t)) (remove_loop-found l).0, (remove_loop-found l).1)
]

-- A list that is empty or begins with a confirmed transaction.
abbrev Begins : List Transaction → Type 0
Begins [] = Unit
Begins (t ∷ l) = Confirmed t

abbrev Split : List Ignored × List Transaction → List Transaction → List Transaction → Type 0
Split result new old =
    All Unconfirmed new
    × Begins old
    × (result.1 ≡ filter pending new ++ filter confirmed old)
    × (result.0 ≡ map superseded (filter not_pending new ++ filter unconfirmed old))

remove_loop-Split :
    (l : List (Option Transaction))
    → (new old : List Transaction) × ((not_null l ≡ new ++ old)
        × Split (remove_loop false l) new old)
unfolding remove_loop not_null
remove_loop-Split [] = ([], [], (refl, (tt, tt, refl, refl)))
remove_loop-Split (none ∷ l) = remove_loop-Split l
remove_loop-Split (some t ∷ l) = elim (state-cases t) [
  | inl c ↦ rw c (
    [],
    t ∷ not_null l,
    (refl, (tt, c, rw c (ap (◌∷◌ t) (remove_loop-found l).1), rw c ((remove_loop-found l).0))),
  )
  | inr (inl (c, p)) ↦
      let (new, old, (same, (all_new, begins, kept, removed))) = remove_loop-Split l in
      rw (c, p)
        (
          t ∷ new,
          old,
          (ap (◌∷◌ t) same, ((c, all_new), begins, rw p (ap (◌∷◌ t) kept), rw p removed)),
        )
  | inr (inr (c, p)) ↦
      let (new, old, (same, (all_new, begins, kept, removed))) = remove_loop-Split l in
      rw (c, p)
        (
          t ∷ new,
          old,
          (
            ap (◌∷◌ t) same,
            ((c, all_new), begins, rw p kept, rw p (ap (◌∷◌ (superseded t)) removed)),
          ),
        )
]

module _ {ℓ} {A : Type ℓ} where
  reverse-append : (xs ys : List A) → reverse (xs ++ ys) ≡ reverse ys ++ reverse xs
  unfolding reverse
  reverse-append [] ys = sym (append-nil (reverse ys))
  reverse-append (x ∷ xs) ys =
      ap (λ (l : List A). l ++ x ∷ []) (reverse-append xs ys)
      ∙ append_assoc (reverse ys) (reverse xs) (x ∷ [])

  pub length-reverse : (xs : List A) → length (reverse xs) ≡ length xs
  unfolding reverse
  length-reverse [] = refl
  length-reverse (x ∷ xs) = omega (arith, length-append (reverse xs) (x ∷ []), length-reverse xs)

  filter-append : (p : A → Bool) (xs ys : List A) → filter p (xs ++ ys) ≡ filter p xs ++ filter p ys
  filter-append p [] ys = refl
  filter-append p (x ∷ xs) ys = ground (arith, filter-append p xs ys)

  pub filter-reverse : (p : A → Bool) (xs : List A) → filter p (reverse xs) ≡ reverse (filter p xs)
  unfolding reverse
  filter-reverse p [] = refl
  filter-reverse p (x ∷ xs) = filter-append p (reverse xs) (x ∷ []) ∙ elim (Bool-cases (p x)) [
    | inl yes_p ↦ rw yes_p (ap (λ (l : List A). l ++ x ∷ []) (filter-reverse p xs))
    | inr no_p ↦ rw no_p (append-nil _ ∙ filter-reverse p xs)
  ]

  not_null-append : (xs ys : List (Option A)) → not_null (xs ++ ys) ≡ not_null xs ++ not_null ys
  unfolding not_null
  not_null-append [] ys = refl
  not_null-append (none ∷ xs) ys = not_null-append xs ys
  not_null-append (some x ∷ xs) ys = ap (◌∷◌ x) (not_null-append xs ys)

  pub not_null-reverse : (xs : List (Option A)) → not_null (reverse xs) ≡ reverse (not_null xs)
  unfolding reverse not_null
  not_null-reverse [] = refl
  not_null-reverse (none ∷ xs) =
      not_null-append (reverse xs) (none ∷ []) ∙ (append-nil _ ∙ not_null-reverse xs)
  not_null-reverse (some x ∷ xs) =
      not_null-append (reverse xs) (some x ∷ [])
      ∙ ap (λ (l : List A). l ++ x ∷ []) (not_null-reverse xs)

  reverse-reverse : (xs : List A) → reverse (reverse xs) ≡ xs
  unfolding reverse
  reverse-reverse [] = refl
  reverse-reverse (x ∷ xs) = reverse-append (reverse xs) (x ∷ []) ∙ ap (◌∷◌ x) (reverse-reverse xs)

  All-append : (P : A → Type 0) (xs ys : List A) → All P xs → All P ys → All P (xs ++ ys)
  All-append P [] ys h k = k
  All-append P (x ∷ xs) ys (hx, h) k = (hx, All-append P xs ys h k)

  pub All-reverse : (P : A → Type 0) (xs : List A) → All P xs → All P (reverse xs)
  unfolding reverse
  All-reverse P [] h = tt
  All-reverse P (x ∷ xs) (hx, h) = All-append P (reverse xs) (x ∷ []) (All-reverse P xs h) (hx, tt)

-- A list that is empty or ends with a confirmed transaction.
abbrev pub Ends : List Transaction → Type 0
Ends l =
    (l ≡ [])
    ⊎ ((first : List Transaction) × ((t : Transaction) × (l ≡ first ++ t ∷ []) × Confirmed t))

Begins-reverse : (l : List Transaction) → Begins l → Ends (reverse l)
unfolding reverse
Begins-reverse [] h = inl refl
Begins-reverse (t ∷ l) h = inr (reverse l, (t, refl, h))

reverse-filter_append :
    (p q : Transaction → Bool) (xs ys : List Transaction)
    → reverse (filter p xs ++ filter q ys) ≡ filter q (reverse ys) ++ filter p (reverse xs)
reverse-filter_append p q xs ys =
    reverse-append (filter p xs) (filter q ys)
    ∙ (ap (λ (l : List Transaction). l ++ reverse (filter p xs)) (sym (filter-reverse q ys))
        ∙ ap (λ (l : List Transaction). filter q (reverse ys) ++ l) (sym (filter-reverse p xs)))

filter_append-reverse :
    (p q : Transaction → Bool) (xs ys : List Transaction)
    → filter p xs ++ filter q ys ≡ reverse (filter q (reverse ys) ++ filter p (reverse xs))
filter_append-reverse p q xs ys =
    sym (reverse-reverse _) ∙ ap reverse (reverse-filter_append p q xs ys)

-- Of the transactions that are not null, up to the last confirmed one and after it,
-- `removeOldPendingTransactions` keeps the confirmed ones of the former and the pending ones of the
-- latter, in their order, and reports all others as they are, in the reverse order.
pub remove_old_pending_transactions_lem :
    (l : List (Option Transaction))
    → let (ignored, kept) = remove_old_pending_transactions l in
      (old new : List Transaction) × ((not_null l ≡ old ++ new)
        × Ends old
        × All Unconfirmed new
        × (kept ≡ filter confirmed old ++ filter pending new)
        × (ignored ≡ map superseded (reverse (filter unconfirmed old ++ filter not_pending new))))
unfolding remove_old_pending_transactions
remove_old_pending_transactions_lem l =
    let (new, old, (same, (all_new, begins, kept, removed))) = remove_loop-Split (reverse l) in
    (
      reverse old,
      reverse new,
      (
        sym (reverse-reverse (not_null l))
            ∙ (ap reverse (sym (not_null-reverse l) ∙ same) ∙ reverse-append new old),
        Begins-reverse old begins,
        All-reverse Unconfirmed new all_new,
        ap reverse kept ∙ reverse-filter_append pending confirmed new old,
        removed ∙ ap (map superseded) (filter_append-reverse not_pending unconfirmed new old),
      ),
    )
