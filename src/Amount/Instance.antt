-- ===== src/Amount/Instance.antt =====
-- A big number that behaves as documented: an integer, printed in decimal. It shows that
-- `IsBigNumber` can hold, and serves the tests.
use request_network.Base.{
  ℕ, suc, ◌<◌, ◌≡◌, refl, false, String, codes, Result, ok, err, arith, ltb, if◌then◌else◌, append,
}
use request_network.Base.Int.{ℤ, pos, negsuc, ◌+ℤ◌, ◌-ℤ◌}
use request_network.Types.{Amount, text, whole, fractional}
use request_network.Amount.{is_integer, max_safe_integer, BigNumber}
use request_network.Amount.Decimal.{decimal}
use request_network.Amount.Laws.{IsBigNumber}
use request_network.Amount.Print.{print, Prints, print-Prints, codes-append}

to_string : ℤ → String
to_string (pos n) = print n
to_string (negsuc n) = append "-" (print (suc n))

read : Amount → Result ℤ
read (text s) = ok (pos (decimal (codes s)))
read (whole (pos n)) = if ltb n max_safe_integer then ok (pos n) else err "overflow"
read (whole (negsuc n)) = ok (negsuc n)
read (fractional s) = err "underflow"

unfoldable pub integers : BigNumber ℤ
unfolding read to_string print decimal
integers = record { read = read; add = ◌+ℤ◌; sub = ◌-ℤ◌; to_string = to_string }

to_string-pos : (a : ℤ) (k : ℕ) → a ≡ pos k → Prints (to_string a) k
unfolding to_string
to_string-pos a k e = rw e (print-Prints k)

to_string-negsuc : (a : ℤ) (k : ℕ) → a ≡ negsuc k → is_integer (codes (to_string a)) ≡ false
unfolding to_string is_integer
to_string-negsuc a k e = rw (e, codes-append "-" (print (suc k))) refl

read-whole : (k : ℕ) → k < max_safe_integer → read (whole (pos k)) ≡ ok (pos k)
unfolding read
read-whole k h = ground arith

read-value : (k : ℕ) (n : ℤ) → read (whole (pos k)) ≡ ok n → n ≡ pos k
unfolding read
read-value k n h = ground arith

pub integers-IsBigNumber : IsBigNumber integers
unfolding integers
integers-IsBigNumber = record {
  value = λ n. n;
  read_text = λ s h. (pos (decimal (codes s)), refl, refl);
  read_whole = read-value;
  reads_whole = λ k h. (pos k, read-whole k h);
  value_add = λ a b. refl;
  value_sub = λ a b. refl;
  to_string_pos = to_string-pos;
  to_string_negsuc = to_string-negsuc;
}
