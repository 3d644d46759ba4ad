-- ===== src/Encryption/Elliptic.antt =====
-- The elliptic curve: packages/utils/src/crypto/ec-utils.ts. Keys and encrypted data are texts of
-- hexadecimal digits.
use request_network.Base.{
  ◌%◌, ◌==◌, Bool, true, false, ◌||◌, String, some, none, List, ◌++◌, take, drop, Result, ok, err,
  str_eq, str_length, append, first_two, if◌then◌else◌,
}
use request_network.Crypto.{Attempt, returned, thrown, Thrown, strip_0x}
use request_network.Encryption.Library.{EncryptionLibrary, Ecies}

infixl 5 ◌>>=◌
abbrev pub ◌>>=◌ : {V W : Type 0} → Attempt V → (V → Attempt W) → Attempt W
returned value >>= next = next value
thrown e >>= next = thrown e

-- `try` and `catch`: a message that the code knows is replaced, any other error is thrown again.
unfoldable pub catch_as : {V : Type 0} → (Thrown → Bool) → String → Attempt V → Result V
catch_as known message (returned value) = ok value
catch_as known message (thrown e) = if known e then err message else err e.message

abbrev is_invalid_argument : Thrown → Bool
is_invalid_argument e = elim e.code [ some c ↦ str_eq c "INVALID_ARGUMENT" | none ↦ false ]

abbrev is_private_key_error : Thrown → Bool
is_private_key_error e =
    str_eq e.message "private key length is invalid"
    || str_eq e.message "Expected private key to be an Uint8Array with length 32"
    || is_invalid_argument e

abbrev is_public_key_length : Thrown → Bool
is_public_key_length e =
    str_eq e.message "public key length is invalid"
    || str_eq e.message "Expected public key to be an Uint8Array with length [33, 65]"

abbrev is_bad_private_key : Thrown → Bool
is_bad_private_key e =
    str_eq e.message "Bad private key"
    || str_eq e.message "Expected private key to be an Uint8Array with length 32"

abbrev is_badly_formatted : Thrown → Bool
is_badly_formatted e =
    is_public_key_length e
    || str_eq e.message "Bad MAC"
    || str_eq e.message "bad MAC after trying padded"
    || str_eq e.message "the public key could not be parsed or is invalid"
    || str_eq e.message "Public Key could not be parsed"

module _ {B : Type 0} (lib : EncryptionLibrary B) where
  -- A key that is a whole number of 32 digits has no prefix, and gets one.
  unfoldable pub compress_public_key : String → Attempt (List B)
  unfolding strip_0x
  compress_public_key public_key =
      let bare = strip_0x public_key in
      let prefixed = if str_length bare % 32 == 0 then append "04" bare else bare in
      lib.public_key_convert (lib.from_hex prefixed) true

  -- `computePrivateAddress` is `computeAddress` of ethers on the `hexlify` of a private key.
  unfoldable pub get_address_from_private_key : String → Result String
  unfolding catch_as
  get_address_from_private_key private_key =
      let prefixed =
        if str_eq (first_two private_key) "0x" then private_key else append "0x" private_key in
      catch_as is_private_key_error "The private key must be a string representing 32 bytes"
        (lib.compute_private_address prefixed)

  unfoldable pub get_address_from_public_key : String → Result String
  unfolding catch_as compress_public_key
  get_address_from_public_key public_key =
      catch_as (λ e. is_public_key_length e || is_invalid_argument e)
        "The public key must be a string representing 64 bytes"
        (compress_public_key public_key >>= lib.compute_address)

  -- `sign_digest` is `joinSignature` of `signDigest` of ethers.
  unfoldable pub ec_sign : String → String → Result String
  unfolding catch_as
  ec_sign private_key contents =
      catch_as is_private_key_error "The private key must be a string representing 32 bytes"
        (lib.sign_digest private_key contents)

  -- The parts of an encrypted text: the initialization vector, the compressed public key, the code
  -- of authentication and the ciphertext.
  unfoldable pub ec_parts : Ecies B → Attempt (List B)
  ec_parts e = do
    ephem ← lib.public_key_convert e.ephem_public_key true
    returned (e.iv ++ (ephem ++ (e.mac ++ e.ciphertext)))

  unfoldable pub ec_encrypt : String → String → Result String
  unfolding catch_as compress_public_key ec_parts
  ec_encrypt public_key contents =
      catch_as is_public_key_length "The public key must be a string representing 64 bytes" (
        compress_public_key public_key >>= λ compressed.
        lib.encrypt_ecies compressed (lib.utf8 contents) >>= λ encrypted.
        ec_parts encrypted >>= λ parts. returned (lib.hex parts))

  unfoldable pub ecies_split : String → Attempt (Ecies B)
  unfolding take drop
  ecies_split str =
      let buf = lib.from_hex str in
      let ephem_public_key_str = take 33 (drop 16 buf) in
      lib.public_key_convert ephem_public_key_str false >>= λ ephem. returned (record {
        iv = take 16 buf;
        ephem_public_key = ephem;
        mac = take 32 (drop 49 buf);
        ciphertext = drop 81 buf;
      })

  unfoldable pub ec_decrypt : String → String → Result String
  unfolding ecies_split strip_0x
  ec_decrypt private_key contents =
      elim (ecies_split contents >>= λ split.
      lib.decrypt_ecies (lib.from_hex (strip_0x private_key)) split) [
        | returned buf ↦ ok (lib.text buf)
        | thrown e ↦
            if is_bad_private_key e
            then err "The private key must be a string representing 32 bytes"
            else if is_badly_formatted e
            then err "The encrypted data is not well formatted"
            else err e.message
      ]
