-- ===== src/Amount/Decimal.antt =====
-- The number that an amount stands for, as the specification of the arithmetic.
use request_network.Base.{ℕ, ◌+◌, ◌-◌, ◌*◌, List, [], ◌∷◌, codes}
use request_network.Base.Int.{pos}
use request_network.Types.{Amount, text, whole}

-- Read digits, most significant first, behind the value `acc`.
unfoldable pub decimal_from : ℕ → List ℕ → ℕ
decimal_from acc [] = acc
decimal_from acc (c ∷ s) = decimal_from (acc * 10 + (c - b'0')) s

unfoldable pub decimal : List ℕ → ℕ
unfolding decimal_from
decimal = decimal_from 0

-- The value of a valid amount.
unfoldable pub amount_value : Amount → ℕ
unfolding decimal
amount_value (text s) = decimal (codes s)
amount_value (whole (pos n)) = n
amount_value _ = 0
