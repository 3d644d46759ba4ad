-- ===== src/Amount/Tests.antt =====
-- The arithmetic on amounts at a text and a number, with the integers for big numbers.
use request_network.Base.{String, ◌≡◌, ◌+◌, refl, ok, err, arith, true, codes}
use request_network.Base.Int.{pos}
use request_network.Types.{text, whole}
use request_network.Amount.{add_amount, reduce_amount, is_integer}
use request_network.Amount.Decimal.{decimal, amount_value}
use request_network.Amount.Instance.{integers, integers-IsBigNumber}
use request_network.Amount.Laws.{add_amount_lem, reduce_amount_lem, reduce_amount_below}

add_amount_example :
    (s : String) × (add_amount integers (text "1000") (whole (pos 50)) ≡ ok (text s))
    × (is_integer (codes s) ≡ true)
    × (decimal (codes s) ≡ 1000 + 50)
unfolding is_integer amount_value decimal
add_amount_example =
    add_amount_lem integers-IsBigNumber (text "1000") (whole (pos 50)) refl (omega arith)

reduce_amount_example :
    (s : String) × (reduce_amount integers (text "1000") (text "100") ≡ ok (text s))
    × (is_integer (codes s) ≡ true)
    × (decimal (codes s) + 100 ≡ 1000)
unfolding is_integer amount_value decimal
reduce_amount_example =
    reduce_amount_lem integers-IsBigNumber (text "1000") (text "100") refl refl (omega arith)

reduce_amount_below_example :
    reduce_amount integers (text "100") (text "1000") ≡ err "result of reduce is not valid"
unfolding is_integer amount_value decimal
reduce_amount_below_example =
    reduce_amount_below integers-IsBigNumber (text "100") (text "1000") refl refl (omega arith)
