-- ===== src/Base/Failure.antt =====
-- A call that may throw: the value, or the message of the error.
use Prim.Native.String.{String}
use native.Mathlib.Omega.{arith}
use mathlib.Core.Path.{◌≡◌, refl}
use mathlib.Core.Logic.{◌⊎◌, inl, inr}
use mathlib.Core.Bool.{Bool, true, false, not}

pub data Result {ℓ} (V : Type ℓ) : Type ℓ where
  ok : V → Result V
  err : String → Result V

-- `if (c) throw new Error(message)`
abbrev pub throw_if : Bool → String → Result (Unit {0})
throw_if false message = ok tt
throw_if true message = err message

-- What follows a call that may throw is not run when it throws.
infixl 5 ◌>>=◌ ◌>>◌
abbrev pub ◌>>=◌ {ℓ₁ ℓ₂} : {V : Type ℓ₁} {W : Type ℓ₂} → Result V → (V → Result W) → Result W
err message >>= next = err message
ok value >>= next = next value

abbrev pub ◌>>◌ {ℓ} : {W : Type ℓ} → Result (Unit {0}) → Result W → Result W
check >> next = check >>= λ done. next

-- The two ways in which a call ends.
pub Result-cases {ℓ} :
    {V : Type ℓ} (call : Result V)
    → ((value : V) × (call ≡ ok value)) ⊎ ((message : String) × (call ≡ err message))
Result-cases (err message) = inr (message, refl)
Result-cases (ok value) = inl (value, refl)

-- A sequence that returns has a first call that returns.
pub >>=-eq-ok {ℓ₁ ℓ₂} :
    {V : Type ℓ₁} {W : Type ℓ₂} (call : Result V) (next : V → Result W) {w : W}
    → (call >>= next) ≡ ok w
    → (value : V) × (call ≡ ok value) × (next value ≡ ok w)
>>=-eq-ok (err message) next same = cc
>>=-eq-ok (ok value) next same = (value, refl, same)

-- What does not throw has a test that fails.
pub throw_if-ok :
    (test : Bool) (message : String) {done : Unit {0}}
    → throw_if test message ≡ ok done
    → test ≡ false
throw_if-ok false message same = refl
throw_if-ok true message same = cc

pub throw_if-not-ok :
    (test : Bool) (message : String) {done : Unit {0}}
    → throw_if (not test) message ≡ ok done
    → test ≡ true
throw_if-not-ok true message same = refl
throw_if-not-ok false message same = cc

pub ok_value {ℓ} : {V : Type ℓ} {a b : V} → ok a ≡ ok b → a ≡ b
ok_value h = ground arith
