-- ===== src/DataAccess/Block/Every.antt =====
-- Tests that hold on every element of a list, and of the values and keys of a dictionary.
use request_network.Base.{
  ◌≡◌, refl, inl, inr, Bool, true, String, some, List, [], ◌∷◌, ◌++◌, Dict, lookup, insert, str_eq,
  get_or, Bool-cases, Option-cases, &&-eq-true, arith,
}
use request_network.DataAccess.Block.{every}

abbrev pub Holds {ℓ} : {A : Type ℓ} → (A → Bool) → List A → Type 0
Holds p xs = every p xs ≡ true

pub Holds-append {ℓ} :
    {A : Type ℓ} (p : A → Bool) (xs ys : List A) → Holds p xs → Holds p ys → Holds p (xs ++ ys)
unfolding every
Holds-append p [] ys h k = k
Holds-append p (x ∷ xs) ys h k =
    let (one, more) = &&-eq-true (p x) (every p xs) h in rw one (Holds-append p xs ys more k)

pub Holds-one {ℓ} : {A : Type ℓ} (p : A → Bool) (x : A) → p x ≡ true → Holds p (x ∷ [])
unfolding every
Holds-one p x h = rw h refl

pub Holds-weaken {ℓ} :
    {A : Type ℓ} (p q : A → Bool) (xs : List A)
    → ((x : A) → p x ≡ true → q x ≡ true)
    → Holds p xs
    → Holds q xs
unfolding every
Holds-weaken p q [] imply h = refl
Holds-weaken p q (x ∷ xs) imply h =
    let (one, more) = &&-eq-true (p x) (every p xs) h in
    rw (imply x one) (Holds-weaken p q xs imply more)

module _ {V : Type 0} where
  pub Holds-insert_values :
      (q : V → Bool) (k : String) (v : V) (d : Dict V)
      → Holds (λ (e : String × V). q e.1) d
      → q v ≡ true
      → Holds (λ (e : String × V). q e.1) (insert k v d)
  unfolding every insert
  Holds-insert_values q k v [] h one = rw one refl
  Holds-insert_values q k v ((j, w) ∷ d) h one =
      let (first, more) = &&-eq-true (q w) (every (λ (e : String × V). q e.1) d) h in
      elim (Bool-cases (str_eq j k)) [
        | inl e ↦ rw (e, one) more
        | inr e ↦ rw (e, first) (Holds-insert_values q k v d more one)
      ]

  pub Holds-insert_keys :
      (q : String → Bool) (k : String) (v : V) (d : Dict V)
      → Holds (λ (e : String × V). q e.0) d
      → q k ≡ true
      → Holds (λ (e : String × V). q e.0) (insert k v d)
  unfolding every insert
  Holds-insert_keys q k v [] h one = rw one refl
  Holds-insert_keys q k v ((j, w) ∷ d) h one =
      let (first, more) = &&-eq-true (q j) (every (λ (e : String × V). q e.0) d) h in
      elim (Bool-cases (str_eq j k)) [
        | inl e ↦ rw (e, first) more
        | inr e ↦ rw (e, first) (Holds-insert_keys q k v d more one)
      ]

  pub Holds-lookup :
      (p : V → Bool) (k : String) (d : Dict V) {v : V}
      → Holds (λ (e : String × V). p e.1) d
      → lookup k d ≡ some v
      → p v ≡ true
  unfolding every lookup
  Holds-lookup p k [] h found = ground arith
  Holds-lookup p k ((j, w) ∷ d) {v} h found =
      let (first, more) = &&-eq-true (p w) (every (λ (e : String × V). p e.1) d) h in
      elim (Bool-cases (str_eq j k)) [
        | inl e ↦ let same : w ≡ v = ground arith in rw (← same) first
        | inr e ↦ Holds-lookup p k d more (ground arith)
      ]

pub Holds-get_or :
    {A : Type 0} (p : A → Bool) (k : String) (d : Dict (List A))
    → Holds (λ (e : String × List A). every p e.1) d
    → Holds p (get_or (lookup k d) [])
unfolding every
Holds-get_or p k d h = elim (Option-cases (lookup k d)) [
  | inl missing ↦ rw missing refl
  | inr (v, found) ↦ rw found (Holds-lookup (every p) k d h found)
]
