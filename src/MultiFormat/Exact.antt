-- ===== src/MultiFormat/Exact.antt =====
-- The round trip of packages/multi-format/src/ where the type of the object is known.
use request_network.Base.{
  ◌≡◌, refl, ap, sym, ◌∙◌, inl, inr, String, first_two, str_eq, truthy, true, false, Bool-cases, ok,
  arith, eq_iff,
}
use request_network.MultiFormat.{Deserialized, serialize, deserialize, aes256_gcm, ecies}
use request_network.MultiFormat.Laws.{
  At, serialize-cases, simple-At, simple_read, read_gcm, read_ecies, flags, hexadecimal-At,
}

-- A text is not two different ones.
different : (a b : String) {s : String} → str_eq a b ≡ false → s ≡ a → s ≡ b → ⊥
different a b h e f = ground (arith, eq_iff a b)

-- Data encrypted by aes256-gcm are written behind their prefix.
gcm-At :
    (d : Deserialized) {s : String} → d.type ≡ "aes256-gcm" → serialize d ≡ ok s → At aes256_gcm d s
gcm-At d type h = elim (serialize-cases d h) [
  | inl at ↦
      let (_, _, t) = simple-At "0" "3" "aes256-cbc" d at in
      absurd (different "aes256-cbc" "aes256-gcm" refl t type)
  | inr (inl at) ↦
      let (_, _, t) = simple-At "0" "2" "ecies" d at in
      absurd (different "ecies" "aes256-gcm" refl t type)
  | inr (inr (inl at)) ↦ at
  | inr (inr (inr (inl at))) ↦
      let (_, _, _, t) = hexadecimal-At "2" "0" "ethereumAddress" 42 d at in
      absurd (different "ethereumAddress" "aes256-gcm" refl t type)
  | inr (inr (inr (inr (inl at)))) ↦
      let (_, _, _, t) = hexadecimal-At "0" "1" "keccak256" 66 d at in
      absurd (different "keccak256" "aes256-gcm" refl t type)
  | inr (inr (inr (inr (inr at)))) ↦
      let (_, _, t) = simple-At "0" "0" "plain-text" d at in
      absurd (different "plain-text" "aes256-gcm" refl t type)
]

-- Data encrypted by aes256-gcm are read back as they are, from a text that is not empty.
pub deserialize-serialize_gcm :
    (d : Deserialized) {s : String}
    → d.type ≡ "aes256-gcm"
    → serialize d ≡ ok s
    → (deserialize s ≡ ok d) × (truthy s ≡ true)
unfolding first_two
deserialize-serialize_gcm d {s} type h =
    let (starts, rest, t) = simple-At "0" "4" "aes256-gcm" d (gcm-At d type h) in
    (
      read_gcm s (flags "04" s starts)
          ∙ simple_read "04" "aes256-gcm" s starts
          ∙ ap (λ v. ok (record { type = "aes256-gcm"; value = v })) rest
          ∙ ap (λ y. ok (record { type = y; value = d.value })) (sym type),
      elim (Bool-cases (str_eq s "")) [
        | inl e ↦
            let empty : s ≡ "" = (eq_iff s "").0 e in
            absurd (different "" "04" refl (ap first_two empty) starts)
        | inr e ↦ ground arith
      ],
    )

-- Data encrypted by the elliptic curve are written behind their prefix.
ecies-At : (d : Deserialized) {s : String} → d.type ≡ "ecies" → serialize d ≡ ok s → At ecies d s
ecies-At d type h = elim (serialize-cases d h) [
  | inl at ↦
      let (_, _, t) = simple-At "0" "3" "aes256-cbc" d at in
      absurd (different "aes256-cbc" "ecies" refl t type)
  | inr (inl at) ↦ at
  | inr (inr (inl at)) ↦
      let (_, _, t) = simple-At "0" "4" "aes256-gcm" d at in
      absurd (different "aes256-gcm" "ecies" refl t type)
  | inr (inr (inr (inl at))) ↦
      let (_, _, _, t) = hexadecimal-At "2" "0" "ethereumAddress" 42 d at in
      absurd (different "ethereumAddress" "ecies" refl t type)
  | inr (inr (inr (inr (inl at)))) ↦
      let (_, _, _, t) = hexadecimal-At "0" "1" "keccak256" 66 d at in
      absurd (different "keccak256" "ecies" refl t type)
  | inr (inr (inr (inr (inr at)))) ↦
      let (_, _, t) = simple-At "0" "0" "plain-text" d at in
      absurd (different "plain-text" "ecies" refl t type)
]

-- Data encrypted by the elliptic curve are read back as they are, from a text that is not empty.
pub deserialize-serialize_ecies :
    (d : Deserialized) {s : String}
    → d.type ≡ "ecies"
    → serialize d ≡ ok s
    → (deserialize s ≡ ok d) × (truthy s ≡ true)
unfolding first_two
deserialize-serialize_ecies d {s} type h =
    let (starts, rest, t) = simple-At "0" "2" "ecies" d (ecies-At d type h) in
    (
      read_ecies s (flags "02" s starts)
          ∙ simple_read "02" "ecies" s starts
          ∙ ap (λ v. ok (record { type = "ecies"; value = v })) rest
          ∙ ap (λ y. ok (record { type = y; value = d.value })) (sym type),
      elim (Bool-cases (str_eq s "")) [
        | inl e ↦
            let empty : s ≡ "" = (eq_iff s "").0 e in
            absurd (different "" "02" refl (ap first_two empty) starts)
        | inr e ↦ ground arith
      ],
    )
