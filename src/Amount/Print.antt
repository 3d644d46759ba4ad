-- ===== src/Amount/Print.antt =====
-- Numbers as decimal texts: `Number.prototype.toString` on a safe integer.
use package.text.Mathlib.TextLemmas.{cons-append, nil-append}
use request_network.Base.{
  ℕ, zero, suc, ◌+◌, ◌-◌, ◌*◌, ◌/◌, ◌%◌, ◌<◌, ◌≡◌, refl, true, String, List, [], ◌∷◌, ◌++◌, codes,
  arith, if◌then◌else◌, Bool-cases, inl, inr, ltb, append,
}
use request_network.Amount.{is_digit, all_digits, is_integer}
use request_network.Amount.Decimal.{decimal_from, decimal}

digit : ℕ → String
digit zero = "0"
digit (suc zero) = "1"
digit (suc (suc zero)) = "2"
digit (suc (suc (suc zero))) = "3"
digit (suc (suc (suc (suc zero)))) = "4"
digit (suc (suc (suc (suc (suc zero))))) = "5"
digit (suc (suc (suc (suc (suc (suc zero)))))) = "6"
digit (suc (suc (suc (suc (suc (suc (suc zero))))))) = "7"
digit (suc (suc (suc (suc (suc (suc (suc (suc zero)))))))) = "8"
digit _ = "9"

-- The digits of `n`, on fuel above `n`.
print_fuel : ℕ → ℕ → String
print_fuel zero n = "0"
print_fuel (suc f) n =
    let longer = append (print_fuel f (n / 10)) (digit (n % 10)) in
    if ltb n 10 then digit n else longer

pub codes-append : (s t : String) → codes (append s t) ≡ codes s ++ codes t
codes-append String.[] t = rw nil-append refl
codes-append (String.◌∷◌ c s) t = rw cons-append (rw (codes-append s t))

codes-digit : (d : ℕ) → d < 10 → codes (digit d) ≡ (b'0' + d) ∷ []
unfolding digit
codes-digit zero h = refl
codes-digit (suc zero) h = refl
codes-digit (suc (suc zero)) h = refl
codes-digit (suc (suc (suc zero))) h = refl
codes-digit (suc (suc (suc (suc zero)))) h = refl
codes-digit (suc (suc (suc (suc (suc zero))))) h = refl
codes-digit (suc (suc (suc (suc (suc (suc zero)))))) h = refl
codes-digit (suc (suc (suc (suc (suc (suc (suc zero))))))) h = refl
codes-digit (suc (suc (suc (suc (suc (suc (suc (suc zero)))))))) h = refl
codes-digit (suc (suc (suc (suc (suc (suc (suc (suc (suc zero))))))))) h = refl
codes-digit (suc (suc (suc (suc (suc (suc (suc (suc (suc (suc n)))))))))) h = absurd (omega arith)

all_digits-snoc :
    (s : List ℕ) (c : ℕ) → all_digits s ≡ true → is_digit c ≡ true → all_digits (s ++ c ∷ []) ≡ true
unfolding all_digits
all_digits-snoc [] c h k = ground arith
all_digits-snoc (d ∷ s) c h k = ground (arith, all_digits-snoc s c)

is_integer-snoc :
    (s : List ℕ) (c : ℕ) → is_integer s ≡ true → is_digit c ≡ true → is_integer (s ++ c ∷ []) ≡ true
unfolding is_integer
is_integer-snoc [] c h k = ground arith
is_integer-snoc (d ∷ s) c h k = all_digits-snoc (d ∷ s) c h k

decimal_from-snoc :
    (acc : ℕ) (s : List ℕ) (c : ℕ)
    → decimal_from acc (s ++ c ∷ []) ≡ decimal_from acc s * 10 + (c - b'0')
unfolding decimal_from
decimal_from-snoc acc [] c = refl
decimal_from-snoc acc (d ∷ s) c = decimal_from-snoc (acc * 10 + (d - b'0')) s c

is_digit_lem : (d : ℕ) → d < 10 → is_digit (b'0' + d) ≡ true
unfolding is_digit
is_digit_lem d h = ground arith

abbrev pub Prints : String → ℕ → Type 0
Prints s n = (is_integer (codes s) ≡ true) × (decimal (codes s) ≡ n)

digit-Prints : (d : ℕ) → d < 10 → Prints (digit d) d
unfolding decimal is_integer
digit-Prints d h = rw (codes-digit d h) (ground (arith, is_digit_lem d h), ground arith)

append-Prints : (s : String) (n : ℕ) → Prints s (n / 10) → Prints (append s (digit (n % 10))) n
unfolding decimal
append-Prints s n (digits, value) =
    rw (codes-append s (digit (n % 10)), codes-digit (n % 10) (omega arith))
      (
        is_integer-snoc _ _ digits (is_digit_lem (n % 10) (omega arith)),
        rw (decimal_from-snoc, value) (omega arith),
      )

print_fuel-Prints : (f n : ℕ) → n < f → Prints (print_fuel f n) n
unfolding print_fuel
print_fuel-Prints zero n h = elim h [ ]
print_fuel-Prints (suc f) n h = elim (Bool-cases (ltb n 10)) [
  | inl small ↦ rw small (digit-Prints n (ground arith))
  | inr large ↦ rw large (append-Prints _ n (print_fuel-Prints f (n / 10) (ground arith)))
]

unfoldable pub print : ℕ → String
unfolding print_fuel digit
print n = print_fuel (suc n) n

pub print-Prints : (n : ℕ) → Prints (print n) n
unfolding print
print-Prints n = print_fuel-Prints (suc n) n (omega arith)
