-- ===== src/RequestLogic/Replay/Counting.antt =====
-- What the steps of `computeRequestFromRequestId` of request-logic.ts keep and report, by what each
-- test counts in it.
use request_network.Base.{
  ◌+◌, ℕ, ◌∙◌, ◌≡◌, refl, ap, Bool, true, false, ◌||◌, ◌&&◌, not, String, Option, none, some, List,
  [], ◌∷◌, map, length, filter, All, arith, Bool-cases, Option-cases, inl, inr, get_or,
}
use request_network.Types.{Action, ConfirmedAction}
use request_network.RequestLogic.Replay.{
  Ignored, raw, Transaction, is_confirmed, is_pending, remove_loop, reverse,
  remove_old_pending_transactions, not_null, some_all, insert_sorted, sort, parse_transactions,
}
use request_network.RequestLogic.Replay.Pending.{
  superseded, filter-reverse, length-reverse, not_null-reverse,
}
use request_network.RequestLogic.Replay.Duplicates.{}

-- How many transactions pass a test.
abbrev pub count {ℓ} : {A : Type ℓ} → (A → Bool) → List A → ℕ
count p l = length (filter p l)

insert_sorted-count :
    (p : Transaction → Bool) (t : Transaction) (l : List Transaction)
    → count p (insert_sorted t l) ≡ count p (t ∷ l)
unfolding insert_sorted
insert_sorted-count p t [] = refl
insert_sorted-count p t (u ∷ l) = ground (arith, insert_sorted-count p t l)

pub sort-count : (p : Transaction → Bool) (l : List Transaction) → count p (sort l) ≡ count p l
unfolding sort
sort-count p [] = refl
sort-count p (t ∷ l) = ground (arith, insert_sorted-count p t (sort l), sort-count p l)

remove_loop-count :
    (found : Bool) (l : List (Option Transaction))
    → (dropped : List Transaction) × ((remove_loop found l).0 ≡ map superseded dropped)
      × ((p : Transaction → Bool)
          → count p (not_null l) ≡ count p dropped + count p (remove_loop found l).1)
unfolding remove_loop not_null
remove_loop-count found [] = ([], refl, λ p. refl)
remove_loop-count found (none ∷ l) = remove_loop-count found l
remove_loop-count found (some t ∷ l) =
    let test = is_confirmed t.state || is_pending t.state && not (found || is_confirmed t.state) in
    let (dropped, same, counts) = remove_loop-count (found || is_confirmed t.state) l in
    elim (Bool-cases test) [
      | inl keeps ↦ rw keeps (dropped, same, λ p. ground (arith, counts p))
      | inr drops ↦
          rw drops (t ∷ dropped, ap (◌∷◌ (superseded t)) same, λ p. ground (arith, counts p))
    ]

reverse-count : {A : Type 0} (p : A → Bool) (l : List A) → count p (reverse l) ≡ count p l
reverse-count p l = ap (length {0}) (filter-reverse p l) ∙ length-reverse (filter p l)

pub not_null-some_all : (l : List Transaction) → not_null (some_all l) ≡ l
unfolding not_null some_all
not_null-some_all [] = refl
not_null-some_all (t ∷ l) = ap (◌∷◌ t) (not_null-some_all l)

pub map-length : {A B : Type 0} (f : A → B) (l : List A) → length (map f l) ≡ length l
map-length f [] = refl
map-length f (x ∷ l) = omega (arith, map-length f l)

pub removal-count :
    (l : List (Option Transaction))
    → (dropped : List Transaction) × ((remove_old_pending_transactions l).0
        ≡ map superseded dropped)
      × ((p : Transaction → Bool)
          → count p (not_null l) ≡ count p dropped + count p (remove_old_pending_transactions l).1)
unfolding remove_old_pending_transactions
removal-count l =
    let (dropped, same, counts) = remove_loop-count false (reverse l) in
    (
      dropped,
      same,
      λ p. omega (
        arith,
        counts p,
        ap (λ (x : List Transaction). count p x) (not_null-reverse l),
        reverse-count p (not_null l),
        reverse-count p (remove_loop false (reverse l)).1,
      ),
    )

-- The actions that are read from transactions, one for one.
abbrev pub Reads : (String → Option Action) → List Transaction → List ConfirmedAction → Type 0
Reads parse [] [] = Unit
Reads parse (t ∷ ts) (c ∷ cs) =
    (parse (get_or t.contents "") ≡ some c.action)
    × (c.state ≡ t.state)
    × (c.timestamp ≡ t.timestamp)
    × Reads parse ts cs
Reads parse _ _ = ⊥

abbrev pub unparsable : Transaction → Ignored
unparsable t = raw "JSON parsing error" t

pub parse-Reads :
    (parse : String → Option Action) (l : List Transaction)
    → (unread readable : List Transaction) × ((parse_transactions parse l).0
        ≡ map unparsable unread)
      × All (λ t. parse (get_or t.contents "") ≡ none) unread
      × Reads parse readable (parse_transactions parse l).1
      × ((p : Transaction → Bool) → count p l ≡ count p unread + count p readable)
unfolding parse_transactions
parse-Reads parse [] = ([], [], refl, tt, tt, λ p. refl)
parse-Reads parse (t ∷ l) =
    let (unread, readable, same, fails, reads, counts) = parse-Reads parse l in
    elim (Option-cases (parse (get_or t.contents ""))) [
      | inl failed ↦
          rw (failed, parse_transactions)
            (
              t ∷ unread,
              readable,
              ap (◌∷◌ (unparsable t)) same,
              (failed, fails),
              reads,
              λ p. ground (arith, counts p),
            )
      | inr (a, parsed) ↦
          rw (parsed, parse_transactions)
            (
              unread,
              t ∷ readable,
              same,
              fails,
              (parsed, refl, refl, reads),
              λ p. ground (arith, counts p),
            )
    ]

pub count-all : {A : Type 0} (l : List A) → count (λ x. true) l ≡ length l
count-all [] = refl
count-all (x ∷ l) = omega (arith, count-all l)

pub Reads-length :
    (parse : String → Option Action) (ts : List Transaction) (cs : List ConfirmedAction)
    → Reads parse ts cs
    → length ts ≡ length cs
Reads-length parse [] [] h = refl
Reads-length parse (t ∷ ts) (c ∷ cs) (a, b, d, h) = omega (arith, Reads-length parse ts cs h)
Reads-length parse [] (c ∷ cs) h = absurd h
Reads-length parse (t ∷ ts) [] h = absurd h
