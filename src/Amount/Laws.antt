-- ===== src/Amount/Laws.antt =====
-- The laws asked of `ethers.BigNumber`, and properties of packages/utils/src/amount.ts with them.
use request_network.Base.{
  throw_if, >>=-eq-ok, not, refl, Bool, Bool-cases, inl, inr, leb, ℕ, ◌+◌, ◌-◌, ◌≤◌, ◌<◌, ◌≡◌, true,
  false, codes, String, ok, err, arith,
}
use request_network.Base.Int.{ℤ, pos, negsuc, ◌+ℤ◌, ◌-ℤ◌}
use request_network.Types.{Amount, text, whole, fractional}
use request_network.Amount.{
  is_string, is_integer, is_valid_amount, max_safe_integer, BigNumber, add_amount, reduce_amount,
}
use request_network.Amount.Decimal.{decimal, amount_value}

-- The documented behaviour of `ethers.BigNumber` on what the code gives it: `value` is the integer
-- that a big number stands for. `from` refuses the largest safe integer when it is given as a
-- JavaScript number.
pub record IsBigNumber {N : Type 0} (big : BigNumber N) : Type 0 where
  pub value : N → ℤ
  pub read_text :
      (s : String)
      → is_integer (codes s) ≡ true
      → (n : N) × (big.read (text s) ≡ ok n) × (value n ≡ pos (decimal (codes s)))
  pub read_whole : (k : ℕ) (n : N) → big.read (whole (pos k)) ≡ ok n → value n ≡ pos k
  pub reads_whole : (k : ℕ) → k < max_safe_integer → (n : N) × (big.read (whole (pos k)) ≡ ok n)
  pub value_add : (a b : N) → value (big.add a b) ≡ value a +ℤ value b
  pub value_sub : (a b : N) → value (big.sub a b) ≡ value a -ℤ value b
  pub to_string_pos :
      (a : N) (k : ℕ)
      → value a ≡ pos k
      → (is_integer (codes (big.to_string a)) ≡ true) × (decimal (codes (big.to_string a)) ≡ k)
  pub to_string_negsuc :
      (a : N) (k : ℕ) → value a ≡ negsuc k → is_integer (codes (big.to_string a)) ≡ false

-- A valid amount that `BigNumber.from` takes: a text of digits, or a safe integer below the largest.
abbrev pub IsReadable : Amount → Type 0
IsReadable (text s) = is_integer (codes s) ≡ true
IsReadable (whole (pos n)) = n < max_safe_integer
IsReadable _ = ⊥

pub IsReadable-valid : (a : Amount) → IsReadable a → is_valid_amount a ≡ true
unfolding is_valid_amount
IsReadable-valid (text s) h = h
IsReadable-valid (whole (pos n)) h = ground arith
IsReadable-valid (whole (negsuc n)) h = absurd h
IsReadable-valid (fractional s) h = absurd h

-- An amount kept as a text is readable when it is valid.
pub IsReadable-text : (s : String) → is_valid_amount (text s) ≡ true → IsReadable (text s)
unfolding is_valid_amount
IsReadable-text s h = h

not_thrown : (b : Bool) (e : String) {u : Unit {0}} → throw_if (not b) e ≡ ok u → b ≡ true
not_thrown true e h = refl
not_thrown false e h = ground arith

module _ {N : Type 0} {big : BigNumber N} (laws : IsBigNumber big) where
  read-value :
      (a : Amount)
      → IsReadable a
      → (n : N) × (big.read a ≡ ok n) × (laws.value n ≡ pos (amount_value a))
  unfolding amount_value
  read-value (text s) h = laws.read_text s h
  read-value (whole (pos n)) h = let (b, e) = laws.reads_whole n h in (b, e, laws.read_whole n b e)
  read-value (whole (negsuc n)) h = absurd h
  read-value (fractional s) h = absurd h

  value_of_read :
      (a : Amount) (n : N)
      → is_valid_amount a ≡ true
      → big.read a ≡ ok n
      → laws.value n ≡ pos (amount_value a)
  unfolding amount_value is_valid_amount
  value_of_read (text s) n valid e =
      let (m, read, value) = laws.read_text s valid in
      let same : n ≡ m = ground arith in rw same value
  value_of_read (whole (pos k)) n valid e = laws.read_whole k n e
  value_of_read (whole (negsuc k)) n valid e = ground arith
  value_of_read (fractional s) n valid e = ground arith

  -- What the two operations return when they return.
  pub add_amount-ok :
      (a d : Amount) {r : Amount}
      → add_amount big a d ≡ ok r
      → (is_valid_amount r ≡ true)
        × (is_string r ≡ true)
        × (amount_value r ≡ amount_value a + amount_value d)
  unfolding add_amount ◌+ℤ◌ is_valid_amount amount_value
  add_amount-ok a d {r} h =
      let (_, valid_a, h₁) = >>=-eq-ok (throw_if (not (is_valid_amount a)) _) _ h in
      let (_, valid_d, h₂) = >>=-eq-ok (throw_if (not (is_valid_amount d)) _) _ h₁ in
      let (m, em, h₃) = >>=-eq-ok (big.read a) _ h₂ in
      let (n, en, h₄) = >>=-eq-ok (big.read d) _ h₃ in
      let vm = value_of_read a m (not_thrown _ _ valid_a) em in
      let vn = value_of_read d n (not_thrown _ _ valid_d) en in
      let sum : laws.value (big.add m n) ≡ pos (amount_value a + amount_value d) =
        rw (laws.value_add, vm, vn) (ground arith) in
      let (digits, value) = laws.to_string_pos (big.add m n) _ sum in
      let same : r ≡ text (big.to_string (big.add m n)) = ground arith in
      rw same (digits, refl, value)

  -- A difference is printed as digits only if it is not negative.
  sub-printed :
      (m n : N) (x y : ℕ)
      → laws.value m ≡ pos x
      → laws.value n ≡ pos y
      → is_integer (codes (big.to_string (big.sub m n))) ≡ true
      → decimal (codes (big.to_string (big.sub m n))) + y ≡ x
  unfolding ◌-ℤ◌
  sub-printed m n x y vm vn digits = elim (Bool-cases (leb y x)) [
    | inl le ↦
        let diff : laws.value (big.sub m n) ≡ pos (x - y) =
          rw (laws.value_sub, vm, vn) (ground arith) in
        let (_, value) = laws.to_string_pos (big.sub m n) (x - y) diff in ground arith
    | inr gt ↦
        let diff : laws.value (big.sub m n) ≡ negsuc (y - x - 1) =
          rw (laws.value_sub, vm, vn) (ground arith) in
        ground (arith, laws.to_string_negsuc (big.sub m n) (y - x - 1) diff)
  ]

  pub reduce_amount-ok :
      (a d : Amount) {r : Amount}
      → reduce_amount big a d ≡ ok r
      → (is_valid_amount r ≡ true)
        × (is_string r ≡ true)
        × (amount_value r + amount_value d ≡ amount_value a)
  unfolding reduce_amount is_valid_amount amount_value
  reduce_amount-ok a d {r} h =
      let (_, valid_a, h₁) = >>=-eq-ok (throw_if (not (is_valid_amount a)) _) _ h in
      let (_, valid_d, h₂) = >>=-eq-ok (throw_if (not (is_valid_amount d)) _) _ h₁ in
      let (m, em, h₃) = >>=-eq-ok (big.read a) _ h₂ in
      let (n, en, h₄) = >>=-eq-ok (big.read d) _ h₃ in
      let (_, valid, h₅) =
        >>=-eq-ok (throw_if (not (is_valid_amount (text (big.to_string (big.sub m n))))) _) _ h₄ in
      let digits : is_integer (codes (big.to_string (big.sub m n))) ≡ true = not_thrown _ _ valid in
      let same : r ≡ text (big.to_string (big.sub m n)) = ground arith in
      rw same (
        digits,
        refl,
        sub-printed m n _ _ (value_of_read a m (not_thrown _ _ valid_a) em)
            (value_of_read d n (not_thrown _ _ valid_d) en) digits,
      )

  -- `addAmount` of two readable amounts returns the text, in digits, of their sum.
  pub add_amount_lem :
      (a d : Amount)
      → IsReadable a
      → IsReadable d
      → (s : String) × (add_amount big a d ≡ ok (text s))
        × (is_integer (codes s) ≡ true)
        × (decimal (codes s) ≡ amount_value a + amount_value d)
  unfolding add_amount ◌+ℤ◌
  add_amount_lem a d ha hd =
      let (m, em, vm) = read-value a ha in
      let (n, en, vn) = read-value d hd in
      let sum : laws.value (big.add m n) ≡ pos (amount_value a + amount_value d) =
        rw (laws.value_add, vm, vn) (ground arith) in
      let (digits, value) = laws.to_string_pos (big.add m n) _ sum in
      (
        big.to_string (big.add m n),
        rw (IsReadable-valid a ha, IsReadable-valid d hd, em, en),
        digits,
        value,
      )

  -- `reduceAmount` by a readable amount that is not the larger one returns the text, in digits, of the
  -- difference.
  pub reduce_amount_lem :
      (a d : Amount)
      → IsReadable a
      → IsReadable d
      → amount_value d ≤ amount_value a
      → (s : String) × (reduce_amount big a d ≡ ok (text s))
        × (is_integer (codes s) ≡ true)
        × (decimal (codes s) + amount_value d ≡ amount_value a)
  unfolding reduce_amount ◌-ℤ◌
  reduce_amount_lem a d ha hd le =
      let (m, em, vm) = read-value a ha in
      let (n, en, vn) = read-value d hd in
      let diff : laws.value (big.sub m n) ≡ pos (amount_value a - amount_value d) =
        rw (laws.value_sub, vm, vn) (ground arith) in
      let (digits, value) = laws.to_string_pos (big.sub m n) _ diff in
      (
        big.to_string (big.sub m n),
        rw (IsReadable-valid a ha, IsReadable-valid d hd, em, en, digits),
        digits,
        omega arith,
      )

  -- `reduceAmount` by a readable amount that is the larger one is refused.
  pub reduce_amount_below :
      (a d : Amount)
      → IsReadable a
      → IsReadable d
      → amount_value a < amount_value d
      → reduce_amount big a d ≡ err "result of reduce is not valid"
  unfolding reduce_amount ◌-ℤ◌
  reduce_amount_below a d ha hd lt =
      let (m, em, vm) = read-value a ha in
      let (n, en, vn) = read-value d hd in
      let diff : laws.value (big.sub m n) ≡ negsuc (amount_value d - amount_value a - 1) =
        rw (laws.value_sub, vm, vn) (ground arith) in
      rw (
        IsReadable-valid a ha,
        IsReadable-valid d hd,
        em,
        en,
        laws.to_string_negsuc (big.sub m n) _ diff,
      )
