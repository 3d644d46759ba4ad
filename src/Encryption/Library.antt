-- ===== src/Encryption/Library.antt =====
-- What the encryption calls: buffers and ciphers of NodeJs, secp256k1, ethers and eccrypto. `B` is a
-- byte. A call draws its random numbers from the library, so that a library stands for one draw of
-- them.
use request_network.Base.{ℕ, ◌≡◌, Bool, true, false, String, List, ◌++◌, length, Result, ok}
use request_network.Crypto.{Attempt, returned}

-- What a cipher object returns of `update`, `final` and `getAuthTag`.
pub record Sealed (B : Type 0) : Type 0 where
  pub update : List B
  pub final : List B
  pub tag : List B

-- `Ecies` of eccrypto
pub record Ecies (B : Type 0) : Type 0 where
  pub iv : List B
  pub ephem_public_key : List B
  pub mac : List B
  pub ciphertext : List B

-- `utf8`, `from_base64` and `from_hex` are `Buffer.from` with the encoding, `text`, `base64` and
-- `hex` are `toString` with it. The ciphers take the key and the initialization vector, in that
-- order, and to open a text of aes-256-gcm its tag. The flag of `public_key_convert` asks for the
-- compressed form.
pub record EncryptionLibrary (B : Type 0) : Type 0 where
  pub utf8 : String → List B
  pub text : List B → String
  pub base64 : List B → String
  pub from_base64 : String → List B
  pub hex : List B → String
  pub from_hex : String → List B
  pub random_bytes : ℕ → List B
  pub seal_cbc : List B → List B → List B → Result (Sealed B)
  pub open_cbc : List B → List B → List B → Result (List B)
  pub seal_gcm : List B → List B → List B → Result (Sealed B)
  pub open_gcm : List B → List B → List B → List B → Result (List B)
  pub public_key_convert : List B → Bool → Attempt (List B)
  pub compute_address : List B → Attempt String
  pub compute_private_address : String → Attempt String
  pub sign_digest : String → String → Attempt String
  pub encrypt_ecies : List B → List B → Attempt (Ecies B)
  pub decrypt_ecies : List B → Ecies B → Attempt (List B)

-- What is documented of the encodings and of the symmetric ciphers.
pub record IsSymmetric {B : Type 0} (lib : EncryptionLibrary B) : Type 0 where
  pub text_utf8 : (s : String) → lib.text (lib.utf8 s) ≡ s
  pub base64_bytes : (b : List B) → lib.from_base64 (lib.base64 b) ≡ b
  pub random_length : (n : ℕ) → length (lib.random_bytes n) ≡ n
  pub cbc_opens :
      (key iv contents : List B) (s : Sealed B)
      → lib.seal_cbc key iv contents ≡ ok s
      → lib.open_cbc key iv (s.update ++ s.final) ≡ ok contents
  pub gcm_tag :
      (key iv contents : List B) (s : Sealed B)
      → lib.seal_gcm key iv contents ≡ ok s
      → length s.tag ≡ 16
  pub gcm_opens :
      (key iv contents : List B) (s : Sealed B)
      → lib.seal_gcm key iv contents ≡ ok s
      → lib.open_gcm key iv s.tag (s.update ++ s.final) ≡ ok contents

-- What is documented of ECIES, for a private key and the compressed form of its public key: the
-- lengths of the parts, and that the private key opens what the public key closes.
pub record IsEcies {B : Type 0} (lib : EncryptionLibrary B) (private_key public_key : List B)
    : Type 0 where
  pub hex_bytes : (b : List B) → lib.from_hex (lib.hex b) ≡ b
  pub iv_length :
      (contents : List B) (e : Ecies B)
      → lib.encrypt_ecies public_key contents ≡ returned e
      → length e.iv ≡ 16
  pub mac_length :
      (contents : List B) (e : Ecies B)
      → lib.encrypt_ecies public_key contents ≡ returned e
      → length e.mac ≡ 32
  pub compressed_length :
      (k c : List B) → lib.public_key_convert k true ≡ returned c → length c ≡ 33
  pub decompressed :
      (contents : List B) (e : Ecies B) (c : List B)
      → lib.encrypt_ecies public_key contents ≡ returned e
      → lib.public_key_convert e.ephem_public_key true ≡ returned c
      → lib.public_key_convert c false ≡ returned e.ephem_public_key
  pub ecies_opens :
      (contents : List B) (e : Ecies B)
      → lib.encrypt_ecies public_key contents ≡ returned e
      → lib.decrypt_ecies private_key e ≡ returned contents
