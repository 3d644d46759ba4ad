-- ===== src/RequestLogic/Replay/Duplicates.antt =====
-- Properties of `uniqueByProperty` of packages/utils/src/utils.ts.
use mathlib.Core.List.{append_assoc}
use request_network.Base.{
  ◌+◌, ◌≡◌, refl, ap, ◌∙◌, sym, false, ◌||◌, String, eq_iff, List, [], ◌∷◌, ◌++◌, map, length,
  filter, All, Bool, true, arith, Bool-cases, inl, inr,
}
use request_network.Types.{ConfirmedAction}
use request_network.RequestLogic.Replay.{includes, unique_from}

-- No hash of the list is among those that were seen, nor twice in the list.
abbrev pub Fresh : (ConfirmedAction → String) → List String → List ConfirmedAction → Type 0
Fresh hash seen [] = Unit
Fresh hash seen (c ∷ l) = (includes seen (hash c) ≡ false) × Fresh hash (seen ++ hash c ∷ []) l

includes-append :
    (xs ys : List String) (h : String) → includes (xs ++ ys) h ≡ (includes xs h || includes ys h)
unfolding includes
includes-append [] ys h = refl
includes-append (x ∷ xs) ys h = ground (arith, includes-append xs ys h)

module _ (hash : ConfirmedAction → String) where
  unique_from-Fresh :
      (seen : List String) (l : List ConfirmedAction) → Fresh hash seen (unique_from hash seen l).0
  unfolding unique_from
  unique_from-Fresh seen [] = tt
  unique_from-Fresh seen (c ∷ l) = elim (Bool-cases (includes seen (hash c))) [
    | inl known ↦ rw known (unique_from-Fresh seen l)
    | inr new ↦ rw new (new, unique_from-Fresh (seen ++ hash c ∷ []) l)
  ]

  unique_from-length :
      (seen : List String) (l : List ConfirmedAction)
      → length (unique_from hash seen l).0 + length (unique_from hash seen l).1 ≡ length l
  unfolding unique_from
  unique_from-length seen [] = refl
  unique_from-length seen (c ∷ l) = elim (Bool-cases (includes seen (hash c))) [
    | inl known ↦ rw known (omega (arith, unique_from-length seen l))
    | inr new ↦ rw new (omega (arith, unique_from-length (seen ++ hash c ∷ []) l))
  ]

  -- A hash that was seen, or that an action of the list has, is that of a kept action or was seen.
  unique_from-includes :
      (seen : List String) (l : List ConfirmedAction) (h : String)
      → includes (seen ++ map hash (unique_from hash seen l).0) h ≡ includes (seen ++ map hash l) h
  unfolding unique_from includes
  unique_from-includes seen [] h = refl
  unique_from-includes seen (c ∷ l) h = elim (Bool-cases (includes seen (hash c))) [
    | inl known ↦ rw known (
        ground (
          arith,
          eq_iff (hash c) h,
          unique_from-includes seen l h,
          includes-append seen (map hash (unique_from hash seen l).0) h,
          includes-append seen (map hash l) h,
          includes-append seen (hash c ∷ map hash l) h,
        ))
    | inr new ↦ rw new (
        ap (λ (x : List String). includes x h) (sym (append_assoc seen (hash c ∷ []) _))
        ∙ (unique_from-includes (seen ++ hash c ∷ []) l h
            ∙ ap (λ (x : List String). includes x h) (append_assoc seen (hash c ∷ []) _)))
  ]

  -- The duplicates are actions of the list, each with the hash of a kept or seen action.
  pub unique_from-count :
      (q : ConfirmedAction → Bool) (seen : List String) (l : List ConfirmedAction)
      → length (filter q l)
        ≡ length (filter q (unique_from hash seen l).0)
          + length (filter q (unique_from hash seen l).1)
  unfolding unique_from
  unique_from-count q seen [] = refl
  unique_from-count q seen (c ∷ l) = elim (Bool-cases (includes seen (hash c))) [
    | inl known ↦ rw known (ground (arith, unique_from-count q seen l))
    | inr new ↦ rw new (ground (arith, unique_from-count q (seen ++ hash c ∷ []) l))
  ]

  pub unique_from-repeated :
      (seen : List String) (l : List ConfirmedAction)
      → All
          (λ d. includes (seen ++ map hash (unique_from hash seen l).0) (hash d) ≡ true)
          (unique_from hash seen l).1
  unfolding unique_from
  unique_from-repeated seen [] = tt
  unique_from-repeated seen (c ∷ l) = elim (Bool-cases (includes seen (hash c))) [
    | inl known ↦ rw known (
      includes-append seen (map hash (unique_from hash seen l).0) (hash c)
          ∙ ap (λ b. b || includes (map hash (unique_from hash seen l).0) (hash c)) known,
      unique_from-repeated seen l,
    )
    | inr new ↦
        rw (new, ← append_assoc seen (hash c ∷ []) _) (unique_from-repeated (seen ++ hash c ∷ []) l)
  ]

  -- `uniqueByProperty` keeps no two actions with the same hash, keeps an action for every hash of its
  -- input and for no other, and each action of the input is either kept or a duplicate.
  pub unique_from_lem :
      (l : List ConfirmedAction)
      → let (items, duplicates) = unique_from hash [] l in
        Fresh hash [] items
        × ((h : String) → includes (map hash items) h ≡ includes (map hash l) h)
        × (length items + length duplicates ≡ length l)
  unique_from_lem l = (unique_from-Fresh [] l, unique_from-includes [] l, unique_from-length [] l)
