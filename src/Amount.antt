-- ===== src/Amount.antt =====
-- Amounts: packages/utils/src/amount.ts. `ethers.BigNumber` is an interface, a type of numbers
-- with its operations; its documented behaviour is the record `IsBigNumber`.
pub mod Decimal
pub mod Print
pub mod Laws
pub mod Instance
mod Tests
use request_network.Base.{
  ℕ, ◌+◌, ◌-◌, ◌*◌, ◌^◌, ◌<◌, ◌≡◌, Bool, true, false, ◌&&◌, String, List, [], ◌∷◌, leb, codes,
  Result, ok, err, ◌>>=◌, ◌>>◌, throw_if, not,
}
use request_network.Base.Int.{ℤ, pos, negsuc}
use request_network.Types.{Amount, text, whole, fractional}

-- `isString`
abbrev pub is_string : Amount → Bool
is_string (text s) = true
is_string _ = false

unfoldable pub is_digit : ℕ → Bool
is_digit c = leb b'0' c && leb c b'9'

unfoldable pub all_digits : List ℕ → Bool
unfolding is_digit
all_digits [] = true
all_digits (c ∷ s) = is_digit c && all_digits s

-- `regexInteger`, /^[\d]+$/
unfoldable pub is_integer : List ℕ → Bool
unfolding all_digits
is_integer [] = false
is_integer (c ∷ s) = all_digits (c ∷ s)

-- `Number.MAX_SAFE_INTEGER`
abbrev pub max_safe_integer : ℕ
max_safe_integer = 9007199254740991

unfoldable pub is_valid_amount : Amount → Bool
unfolding is_integer
is_valid_amount (text s) = is_integer (codes s)
is_valid_amount (whole (pos n)) = leb n max_safe_integer
is_valid_amount (whole (negsuc n)) = false
is_valid_amount (fractional s) = false

-- What the code calls of `ethers.BigNumber`; `read` is `BigNumber.from`, which may throw.
pub record BigNumber (N : Type 0) : Type 0 where
  pub read : Amount → Result N
  pub add : N → N → N
  pub sub : N → N → N
  pub to_string : N → String

module _ {N : Type 0} (big : BigNumber N) where
  unfoldable pub add_amount : Amount → Amount → Result Amount
  unfolding is_valid_amount
  add_amount amount delta = do
    throw_if (not (is_valid_amount amount)) "amount must represent a positive integer"
    throw_if (not (is_valid_amount delta)) "delta must represent a positive integer"
    a ← big.read amount
    d ← big.read delta
    ok (text (big.to_string (big.add a d)))

  unfoldable pub reduce_amount : Amount → Amount → Result Amount
  unfolding is_valid_amount
  reduce_amount amount delta = do
    throw_if (not (is_valid_amount amount)) "amount must represent a positive integer"
    throw_if (not (is_valid_amount delta)) "delta must represent a positive integer"
    a ← big.read amount
    d ← big.read delta
    let new_amount = text (big.to_string (big.sub a d))
    throw_if (not (is_valid_amount new_amount)) "result of reduce is not valid"
    ok new_amount
