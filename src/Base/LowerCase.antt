-- ===== src/Base/LowerCase.antt =====
-- Lemmas on `toLowerCase`, over ASCII.
use Prim.Native.Char.{Char, code}
use Prim.Native.String.{String}
use mathlib.Core.Path.{◌≡◌, refl, ap}
use mathlib.Core.Logic.{◌⊎◌, inl, inr}
use request_network.Base.Boolean.{◌==◌ as nat_eq, Bool-cases}
use request_network.Base.Text.{translate, lower, str_length}

abbrev upper_letters : String
upper_letters = "ABCDEFGHIJKLMNOPQRSTUVWXYZ"

abbrev lower_letters : String
lower_letters = "abcdefghijklmnopqrstuvwxyz"

abbrev lower_char : Char → Char
lower_char c = translate c upper_letters lower_letters

abbrev Lowered : Char → Type 0
Lowered c = lower_char c ≡ c

abbrev AllLowered : String → Type 0
AllLowered String.[] = Unit
AllLowered (String.◌∷◌ c s) = Lowered c × AllLowered s

lower_letters-AllLowered : AllLowered lower_letters
unfolding translate
lower_letters-AllLowered = (
  refl,
  (
    refl,
    (
      refl,
      (
        refl,
        (
          refl,
          (
            refl,
            (
              refl,
              (
                refl,
                (
                  refl,
                  (
                    refl,
                    (
                      refl,
                      (
                        refl,
                        (
                          refl,
                          (
                            refl,
                            (
                              refl,
                              (
                                refl,
                                (
                                  refl,
                                  (
                                    refl,
                                    (
                                      refl,
                                      (refl, (refl, (refl, (refl, (refl, (refl, (refl, tt))))))),
                                    ),
                                  ),
                                ),
                              ),
                            ),
                          ),
                        ),
                      ),
                    ),
                  ),
                ),
              ),
            ),
          ),
        ),
      ),
    ),
  ),
)

translate-cases :
    (c : Char) (s t : String) → AllLowered t → (translate c s t ≡ c) ⊎ Lowered (translate c s t)
unfolding translate
translate-cases c String.[] t h = inl refl
translate-cases c (String.◌∷◌ a s) String.[] h = inl refl
translate-cases c (String.◌∷◌ a s) (String.◌∷◌ b t) (hb, ht) =
    elim (Bool-cases (nat_eq (code a) (code c))) [
      | inl hit ↦ rw hit (inr hb)
      | inr miss ↦ rw miss (translate-cases c s t ht)
    ]

lower_char-lower_char : (c : Char) → lower_char (lower_char c) ≡ lower_char c
lower_char-lower_char c =
    elim (translate-cases c upper_letters lower_letters lower_letters-AllLowered) [
      | inl same ↦ ap lower_char same
      | inr fixed ↦ fixed
    ]

pub lower-lower : (s : String) → lower (lower s) ≡ lower s
unfolding lower
lower-lower String.[] = refl
lower-lower (String.◌∷◌ c s) = rw (lower_char-lower_char c, lower-lower s) refl

pub str_length-lower : (s : String) → str_length (lower s) ≡ str_length s
unfolding lower str_length
str_length-lower String.[] = refl
str_length-lower (String.◌∷◌ c s) = rw (str_length-lower s) refl
