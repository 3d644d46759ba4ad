-- ===== src/MultiFormat.antt =====
-- The multi-format package: a value is stored as a text behind a prefix of two characters that
-- names its type (packages/multi-format/src/). A class of formats is a constructor of `Format`,
-- and a group of formats is a list.
pub mod Laws
pub mod Exact
mod Tests
use request_network.Base.{
  ℕ, Bool, true, false, not, ◌&&◌, ◌||◌, String, Option, none, some, List, [], ◌∷◌, ◌==◌, Result,
  ok, err, ◌>>◌, throw_if, str_eq, truthy, append, lower, first_two, drop_two, str_length,
}

-- `IMultiFormatDeserialized`
pub record Deserialized : Type 0 where
  pub type : String
  pub value : String

-- `simple` is a `SerializableMultiFormat`; `hexadecimal` a `HexadecimalSerializableMultiFormat`
-- whose subclass fixes the length of the text.
pub data Format : Type 0 where
  simple : (prefix type : String) → Format
  hexadecimal : (prefix type : String) (length : ℕ) → Format

abbrev pub prefix : Format → String
prefix (simple p t) = p
prefix (hexadecimal p t n) = p

unfoldable pub is_serializable_object : Format → Deserialized → Bool
is_serializable_object (simple p t) d = str_eq d.type t && truthy d.value
is_serializable_object (hexadecimal p t n) d =
    str_eq d.type t
    && truthy d.value
    && str_eq (first_two d.value) "0x"
    && (str_length d.value == n)

unfoldable pub is_deserializable_string : Format → String → Bool
is_deserializable_string (simple p t) formatted = str_eq (first_two formatted) p
is_deserializable_string (hexadecimal p t n) formatted =
    str_eq (first_two formatted) p && (str_length formatted == n)

unfoldable pub serialize_format : Format → Deserialized → Result String
unfolding is_serializable_object
serialize_format (simple p t) d = do
  throw_if (not (is_serializable_object (simple p t) d)) "object is not a serializable object"
  ok (append p d.value)
serialize_format (hexadecimal p t n) d = do
  throw_if (not (is_serializable_object (hexadecimal p t n) d))
      "object is not a serializable object"
  ok (append p (lower (drop_two d.value)))

unfoldable pub deserialize_format : Format → String → Result Deserialized
unfolding is_deserializable_string
deserialize_format (simple p t) formatted = do
  throw_if (not (is_deserializable_string (simple p t) formatted))
      "string is not a serialized string"
  ok (record { type = t; value = drop_two formatted })
deserialize_format (hexadecimal p t n) formatted = do
  throw_if (not (is_deserializable_string (hexadecimal p t n) formatted))
      "string is not a serialized string"
  ok (record { type = t; value = append "0x" (drop_two (lower formatted)) })

-- The formats, in the order of `availableFormats` and of the groups in it.
abbrev pub aes256_cbc : Format
aes256_cbc = simple "03" "aes256-cbc"

abbrev pub aes256_gcm : Format
aes256_gcm = simple "04" "aes256-gcm"

abbrev pub ecies : Format
ecies = simple "02" "ecies"

abbrev pub ethereum_address : Format
ethereum_address = hexadecimal "20" "ethereumAddress" 42

abbrev pub keccak256 : Format
keccak256 = hexadecimal "01" "keccak256" 66

abbrev pub plain_text : Format
plain_text = simple "00" "plain-text"

abbrev pub Group : Type 0
Group = List Format

abbrev pub encryption_formats : Group
encryption_formats = aes256_cbc ∷ ecies ∷ aes256_gcm ∷ []

abbrev pub identity_format : Group
identity_format = ethereum_address ∷ []

abbrev pub hash_format : Group
hash_format = keccak256 ∷ []

abbrev pub plain_format : Group
plain_format = plain_text ∷ []

abbrev pub available_formats : List Group
available_formats = encryption_formats ∷ identity_format ∷ hash_format ∷ plain_format ∷ []

-- `Array.find` and `Array.some`
unfoldable pub find {ℓ} : {A : Type ℓ} → (A → Bool) → List A → Option A
find p [] = none
find p (x ∷ xs) = elim (p x) [ true ↦ some x | false ↦ find p xs ]

unfoldable pub any {ℓ} : {A : Type ℓ} → (A → Bool) → List A → Bool
any p [] = false
any p (x ∷ xs) = p x || any p xs

unfoldable pub serialize_group : Group → Deserialized → Result String
unfolding find
serialize_group formats d = elim (find (λ f. is_serializable_object f d) formats) [
  | some f ↦ serialize_format f d
  | none ↦ err "No format found to serialize this object"
]

unfoldable pub deserialize_group : Group → String → Result Deserialized
unfolding find
deserialize_group formats s = elim (find (λ f. is_deserializable_string f s) formats) [
  | some f ↦ deserialize_format f s
  | none ↦ err "No format found to deserialize this string"
]

unfoldable pub serialize : Deserialized → Result String
unfolding find any serialize_group
serialize d = elim (find (λ g. any (λ f. is_serializable_object f d) g) available_formats) [
  | some g ↦ serialize_group g d
  | none ↦ err "No format found to serialize this object"
]

unfoldable pub deserialize : String → Result Deserialized
unfolding find any deserialize_group
deserialize s = elim (find (λ g. any (λ f. is_deserializable_string f s) g) available_formats) [
  | some g ↦ deserialize_group g s
  | none ↦ err "No format found to deserialize this string"
]
