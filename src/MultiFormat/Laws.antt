-- ===== src/MultiFormat/Laws.antt =====
-- Properties of `serialize` and `deserialize` of packages/multi-format/src/index.ts.
use Prim.Native.Char.{Char}
use request_network.Base.{
  ℕ, ◌≡◌, refl, ap, ◌∙◌, sym, ◌⊎◌, inl, inr, String, append, lower, first_two, drop_two, str_length,
  str_eq, Bool, ◌&&◌, ◌==◌, ok, two, eq_iff, lower-lower, str_length-lower, append-two,
  first_two-append, first_two-split, str_length-two, drop_two-lower, drop_two-append, arith, true,
  false,
}
use request_network.MultiFormat.{
  Deserialized, Format, simple, hexadecimal, is_serializable_object, is_deserializable_string,
  serialize_format, deserialize_format, find, any, serialize_group, deserialize_group, serialize,
  deserialize, ethereum_address, keccak256, aes256_cbc, aes256_gcm, ecies, plain_text,
}

-- A format that serializes an object, and the text that it makes.
abbrev pub At : Format → Deserialized → String → Type 0
At f d s = (is_serializable_object f d ≡ true) × (serialize_format f d ≡ ok s)

pub serialize-cases :
    (d : Deserialized) {s : String}
    → serialize d ≡ ok s
    → At aes256_cbc d s
      ⊎ (At ecies d s
          ⊎ (At aes256_gcm d s
              ⊎ (At ethereum_address d s ⊎ (At keccak256 d s ⊎ At plain_text d s))))
unfolding serialize find any serialize_group
serialize-cases d h = ground arith

-- What reading gives back of an object: the object, or the same with its value in lower case.
abbrev pub Restores : Deserialized → Deserialized → Type 0
Restores d d' = (d'.type ≡ d.type) × ((d'.value ≡ d.value) ⊎ (d'.value ≡ lower d.value))

-- A simple format writes its prefix of two characters before the value.
pub simple-At :
    (a b : Char) (t : String) (d : Deserialized) {s : String}
    → At (simple (two a b) t) d s
    → (first_two s ≡ two a b) × (drop_two s ≡ d.value) × (d.type ≡ t)
unfolding serialize_format is_serializable_object
simple-At a b t d {s} (able, h) =
    let same : s ≡ append (two a b) d.value = ground arith in
    rw same
      (first_two-append a b d.value, drop_two-append a b d.value, ground (arith, eq_iff d.type t))

-- Which formats take a text, by its prefix.
pub flags :
    (p s : String)
    → first_two s ≡ p
    → (is_deserializable_string aes256_cbc s ≡ str_eq p "03")
      × (is_deserializable_string ecies s ≡ str_eq p "02")
      × (is_deserializable_string aes256_gcm s ≡ str_eq p "04")
      × (is_deserializable_string ethereum_address s ≡ (str_eq p "20" && (str_length s == 42)))
      × (is_deserializable_string keccak256 s ≡ (str_eq p "01" && (str_length s == 66)))
      × (is_deserializable_string plain_text s ≡ str_eq p "00")
unfolding is_deserializable_string
flags p s h = (rw h refl, rw h refl, rw h refl, rw h refl, rw h refl, rw h refl)

-- The format that reads a text is the first that takes it.
module _ (s : String) where
  abbrev pub Takes : Bool → Bool → Bool → Bool → Bool → Bool → Type 0
  Takes a b c d e f =
      (is_deserializable_string aes256_cbc s ≡ a)
      × (is_deserializable_string ecies s ≡ b)
      × (is_deserializable_string aes256_gcm s ≡ c)
      × (is_deserializable_string ethereum_address s ≡ d)
      × (is_deserializable_string keccak256 s ≡ e)
      × (is_deserializable_string plain_text s ≡ f)

  read_cbc :
      Takes true false false false false false → deserialize s ≡ deserialize_format aes256_cbc s
  unfolding deserialize find any deserialize_group
  read_cbc h = ground arith

  pub read_ecies :
      Takes false true false false false false → deserialize s ≡ deserialize_format ecies s
  unfolding deserialize find any deserialize_group
  read_ecies h = ground arith

  pub read_gcm :
      Takes false false true false false false → deserialize s ≡ deserialize_format aes256_gcm s
  unfolding deserialize find any deserialize_group
  read_gcm h = ground arith

  read_address :
      Takes false false false true false false
      → deserialize s ≡ deserialize_format ethereum_address s
  unfolding deserialize find any deserialize_group
  read_address h = ground arith

  read_hash :
      Takes false false false false true false → deserialize s ≡ deserialize_format keccak256 s
  unfolding deserialize find any deserialize_group
  read_hash h = ground arith

  read_plain :
      Takes false false false false false true → deserialize s ≡ deserialize_format plain_text s
  unfolding deserialize find any deserialize_group
  read_plain h = ground arith

pub simple_read :
    (p t s : String)
    → first_two s ≡ p
    → deserialize_format (simple p t) s ≡ ok (record { type = t; value = drop_two s })
unfolding deserialize_format is_deserializable_string
simple_read p t s h = ground (arith, eq_iff (first_two s) p)

hexadecimal_read :
    (p t s : String) (n : ℕ)
    → first_two s ≡ p
    → str_length s ≡ n
    → deserialize_format (hexadecimal p t n) s
      ≡ ok (record { type = t; value = append "0x" (drop_two (lower s)) })
unfolding deserialize_format is_deserializable_string
hexadecimal_read p t s n h m = ground (arith, eq_iff (first_two s) p)

lower_zero_x : (s : String) → lower (append "0x" s) ≡ append "0x" (lower s)
unfolding lower
lower_zero_x s = rw (append-two "0" "x" s, append-two "0" "x" (lower s)) refl

-- A hexadecimal format writes its prefix before the digits in lower case, without their 0x.
pub hexadecimal-At :
    (a b : Char) (t : String) (n : ℕ) (d : Deserialized) {s : String}
    → At (hexadecimal (two a b) t n) d s
    → (first_two s ≡ two a b)
      × (str_length s ≡ n)
      × (append "0x" (drop_two (lower s)) ≡ lower d.value)
      × (d.type ≡ t)
unfolding serialize_format is_serializable_object
hexadecimal-At a b t n d {s} (able, h) =
    let digits : String = drop_two d.value in
    let same : s ≡ append (two a b) (lower digits) = ground arith in
    let zero_x : first_two d.value ≡ "0x" = ground (arith, eq_iff (first_two d.value) "0x") in
    let whole : d.value ≡ append "0x" digits = first_two-split d.value "0" "x" zero_x in
    let size : str_length d.value ≡ n = ground arith in
    rw same (
      first_two-append a b (lower digits),
      omega (
        arith,
        str_length-two a b (lower digits),
        str_length-lower digits,
        ap str_length whole,
        str_length-two "0" "x" digits,
        size,
      ),
      rw (drop_two-lower a b (lower digits), lower-lower digits)
          (sym (ap lower whole ∙ lower_zero_x digits)),
      ground (arith, eq_iff d.type t),
    )

restored_simple :
    (a b : Char) (t : String) (d : Deserialized) {s : String}
    → At (simple (two a b) t) d s
    → deserialize s ≡ deserialize_format (simple (two a b) t) s
    → (d' : Deserialized) × (deserialize s ≡ ok d') × Restores d d'
restored_simple a b t d {s} at read =
    let (starts, rest, type) = simple-At a b t d at in
    (
      record { type = t; value = drop_two s },
      read ∙ simple_read (two a b) t s starts,
      (sym type, inl rest),
    )

restored_hexadecimal :
    (a b : Char) (t : String) (n : ℕ) (d : Deserialized) {s : String}
    → At (hexadecimal (two a b) t n) d s
    → deserialize s ≡ deserialize_format (hexadecimal (two a b) t n) s
    → (d' : Deserialized) × (deserialize s ≡ ok d') × Restores d d'
restored_hexadecimal a b t n d {s} at read =
    let (starts, size, digits, type) = hexadecimal-At a b t n d at in
    (
      record { type = t; value = append "0x" (drop_two (lower s)) },
      read ∙ hexadecimal_read (two a b) t s n starts size,
      (sym type, inr digits),
    )

length_flag : (m n : ℕ) → m ≡ n → (m == n) ≡ true
length_flag m n h = ground arith

-- What `serialize` writes, `deserialize` reads: an object of the same type with the same value, or
-- with its value in lower case where the format is hexadecimal.
pub deserialize-serialize :
    (d : Deserialized) {s : String}
    → serialize d ≡ ok s
    → (d' : Deserialized) × (deserialize s ≡ ok d') × Restores d d'
deserialize-serialize d {s} h = elim (serialize-cases d h) [
  | inl at ↦
      let (starts, _, _) = simple-At "0" "3" "aes256-cbc" d at in
      restored_simple "0" "3" "aes256-cbc" d at (read_cbc s (flags "03" s starts))
  | inr (inl at) ↦
      let (starts, _, _) = simple-At "0" "2" "ecies" d at in
      restored_simple "0" "2" "ecies" d at (read_ecies s (flags "02" s starts))
  | inr (inr (inl at)) ↦
      let (starts, _, _) = simple-At "0" "4" "aes256-gcm" d at in
      restored_simple "0" "4" "aes256-gcm" d at (read_gcm s (flags "04" s starts))
  | inr (inr (inr (inl at))) ↦
      let (starts, size, _, _) = hexadecimal-At "2" "0" "ethereumAddress" 42 d at in
      let (f, g, k, x, y, z) = flags "20" s starts in
      restored_hexadecimal "2" "0" "ethereumAddress" 42 d at
        (read_address s (f, g, k, x ∙ length_flag _ _ size, y, z))
  | inr (inr (inr (inr (inl at)))) ↦
      let (starts, size, _, _) = hexadecimal-At "0" "1" "keccak256" 66 d at in
      let (f, g, k, x, y, z) = flags "01" s starts in
      restored_hexadecimal "0" "1" "keccak256" 66 d at
        (read_hash s (f, g, k, x, y ∙ length_flag _ _ size, z))
  | inr (inr (inr (inr (inr at)))) ↦
      let (starts, _, _) = simple-At "0" "0" "plain-text" d at in
      restored_simple "0" "0" "plain-text" d at (read_plain s (flags "00" s starts))
]
