-- ===== src/Encryption/Tests.antt =====
-- The round trip of ECIES, with a library that leaves the contents as they are.
use request_network.Base.{◌≡◌, refl, ok, first_two, drop_two, err, arith}
use request_network.Crypto.{strip_0x}
use request_network.MultiFormat.{Deserialized}
use request_network.Encryption.{EncryptionParameters, ecies, aes256_gcm}
use request_network.Encryption.Elliptic.{ec_encrypt, catch_as, compress_public_key, ec_parts}
use request_network.Encryption.Methods.{encrypt, decrypt}
use request_network.Encryption.Laws.{decrypt-encrypt, decrypt-encrypt_other}
use request_network.Encryption.Instance.{
  characters, joined, zeros, plain_library, plain_library-IsSymmetric, plain_library-IsEcies,
}

abbrev closing : EncryptionParameters
closing = record { method = ecies; key = "public" }

abbrev opening : EncryptionParameters
opening = record { method = ecies; key = "0xsecret" }

abbrev closed : Deserialized
closed = record {
  type = "ecies";
  value = "000000000000000000000000000000000000000000000000000000000000000000000000000000000hello";
}

decrypt-encrypt_example : decrypt plain_library closed opening ≡ ok "hello"
unfolding encrypt ec_encrypt catch_as compress_public_key ec_parts zeros characters joined strip_0x
    first_two drop_two
decrypt-encrypt_example =
    decrypt-encrypt plain_library plain_library-IsSymmetric "hello" closing opening
      (refl, (zeros 33, refl, plain_library-IsEcies)) refl

decrypt-encrypt_other_example :
    decrypt plain_library closed (record { method = aes256_gcm; key = "key" })
    ≡ err "decryptionParams.method should be ecies"
unfolding encrypt ec_encrypt catch_as compress_public_key ec_parts zeros characters joined strip_0x
decrypt-encrypt_other_example =
    decrypt-encrypt_other plain_library "hello" closing
      (record { method = aes256_gcm; key = "key" }) (λ same. ground arith) refl
