-- ===== src/Base/TextEnds.antt =====
-- The two characters at either end of a text.
use Prim.Native.Nat.{suc}
use Prim.Native.Char.{Char}
use Prim.Native.String.{String}
use mathlib.Core.Path.{◌≡◌, refl, ap, ◌∙◌, sym}
use native.Mathlib.Omega.{arith}
use text.Mathlib.TextLemmas.{nil-append, cons-append}
use request_network.Base.Text.{
  append, lower, str_length, first_two, drop_two, last_two, but_last_two,
}

abbrev pub two : Char → Char → String
two a b = String.◌∷◌ a (String.◌∷◌ b String.[])

-- A text with two characters before or after it has two at least.
pub append-two : (a b : Char) (s : String) → append (two a b) s ≡ String.◌∷◌ a (String.◌∷◌ b s)
append-two a b s =
    rw (cons-append a (String.◌∷◌ b String.[]) s, cons-append b String.[] s, nil-append s) refl

two_after :
    (s : String) (a b : Char)
    → (x y : Char) × ((z : String) × (append s (two a b) ≡ String.◌∷◌ x (String.◌∷◌ y z)))
two_after String.[] a b = (a, b, (String.[], nil-append _))
two_after (String.◌∷◌ c s) a b =
    let (x, y, (z, e)) = two_after s a b in
    (c, x, (String.◌∷◌ y z, cons-append c s _ ∙ ap (String.◌∷◌ c) e))

pub first_two-append : (a b : Char) (s : String) → first_two (append (two a b) s) ≡ two a b
unfolding first_two
first_two-append a b s = rw (append-two a b s) refl

pub drop_two-append : (a b : Char) (s : String) → drop_two (append (two a b) s) ≡ s
unfolding drop_two
drop_two-append a b s = rw (append-two a b s) refl

pub last_two-append : (s : String) (a b : Char) → last_two (append s (two a b)) ≡ two a b
unfolding last_two
last_two-append String.[] a b = rw (nil-append (two a b)) refl
last_two-append (String.◌∷◌ c s) a b =
    let (x, y, (z, e)) = two_after s a b in
    rw (cons-append c s (two a b), e) (ap last_two (sym e) ∙ last_two-append s a b)

pub but_last_two-append : (s : String) (a b : Char) → but_last_two (append s (two a b)) ≡ s
unfolding but_last_two
but_last_two-append String.[] a b = rw (nil-append (two a b)) refl
but_last_two-append (String.◌∷◌ c s) a b =
    let (x, y, (z, e)) = two_after s a b in
    rw (cons-append c s (two a b), e)
      (ap (String.◌∷◌ c) (ap but_last_two (sym e) ∙ but_last_two-append s a b))

pub drop_two-lower : (a b : Char) (s : String) → drop_two (lower (append (two a b) s)) ≡ lower s
unfolding drop_two lower
drop_two-lower a b s = rw (append-two a b s) refl

pub str_length-two :
    (a b : Char) (s : String) → str_length (append (two a b) s) ≡ suc (suc (str_length s))
unfolding str_length
str_length-two a b s = rw (append-two a b s) refl

-- A text that starts with two characters is those before the rest.
pub first_two-split :
    (s : String) (a b : Char) → first_two s ≡ two a b → s ≡ append (two a b) (drop_two s)
unfolding first_two drop_two str_length
first_two-split String.[] a b h =
    let short : 0 ≡ 2 = ap str_length h in absurd (omega (arith, short))
first_two-split (String.◌∷◌ c String.[]) a b h =
    let short : 1 ≡ 2 = ap str_length h in absurd (omega (arith, short))
first_two-split (String.◌∷◌ c (String.◌∷◌ d s)) a b h =
    sym (append-two c d s) ∙ ap (λ (p : String). append p s) h
