-- ===== src/Base/Text.antt =====
-- Texts: equality, emptiness, code points, and lower case over ASCII.
use Prim.Native.Nat.{ℕ, suc}
use Prim.Native.Char.{Char, code}
use Prim.Native.String
use Prim.Native.String.{String}
use mathlib.Core.Path.{◌≡◌, refl}
use mathlib.Core.Bool.{Bool, true, false, not}
use mathlib.Core.Option.{Option, none, some}
use mathlib.Core.List.{List, [], ◌∷◌}
use text.Mathlib.Text.{◌==◌}
use text.Mathlib.TextEquality.{eq_iff}
use request_network.Base.Boolean.{◌==◌ as nat_eq, if◌then◌else◌}

-- `a === b` on texts.
abbrev pub str_eq : String → String → Bool
str_eq a b = a == b

pub str_eq_refl : (a : String) → str_eq a a ≡ true
str_eq_refl a = (eq_iff a a).1 refl

abbrev pub append : String → String → String
append a b = String.◌++◌ a b

-- The truth value of a text: only the empty one is falsy.
abbrev pub truthy : String → Bool
truthy s = not (s == "")

-- The truth value of a text that may be undefined.
abbrev pub given : Option String → Bool
given none = false
given (some s) = truthy s

abbrev pub codes : String → List ℕ
codes String.[] = []
codes (String.◌∷◌ c s) = code c ∷ codes s

-- The character that stands in the second text where `c` stands in the first.
unfoldable pub translate : Char → String → String → Char
translate c (String.◌∷◌ a s) (String.◌∷◌ b t) =
    if nat_eq (code a) (code c) then b else translate c s t
translate c _ _ = c

-- `toLowerCase`, on the letters of ASCII.
unfoldable pub lower : String → String
unfolding translate
lower String.[] = ""
lower (String.◌∷◌ c s) =
    String.◌∷◌ (translate c "ABCDEFGHIJKLMNOPQRSTUVWXYZ" "abcdefghijklmnopqrstuvwxyz") (lower s)

-- `slice(-2)`
unfoldable pub last_two : String → String
last_two (String.◌∷◌ a (String.◌∷◌ b (String.◌∷◌ c s))) = last_two (String.◌∷◌ b (String.◌∷◌ c s))
last_two s = s

-- `slice(0, -2)`
unfoldable pub but_last_two : String → String
but_last_two (String.◌∷◌ a (String.◌∷◌ b (String.◌∷◌ c s))) =
    String.◌∷◌ a (but_last_two (String.◌∷◌ b (String.◌∷◌ c s)))
but_last_two s = ""

-- `slice(0, 2)`
unfoldable pub first_two : String → String
first_two (String.◌∷◌ a (String.◌∷◌ b s)) = String.◌∷◌ a (String.◌∷◌ b String.[])
first_two s = s

-- `slice(2)`
unfoldable pub drop_two : String → String
drop_two (String.◌∷◌ a (String.◌∷◌ b s)) = s
drop_two s = ""

-- `length`, of a text of ASCII
unfoldable pub str_length : String → ℕ
str_length String.[] = 0
str_length (String.◌∷◌ c s) = suc (str_length s)

-- `startsWith`
unfoldable pub starts_with : String → String → Bool
starts_with s String.[] = true
starts_with String.[] (String.◌∷◌ c p) = false
starts_with (String.◌∷◌ a s) (String.◌∷◌ c p) =
    if nat_eq (code a) (code c) then starts_with s p else false
