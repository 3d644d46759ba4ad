-- ===== src/Encryption/Methods.antt =====
-- The choice of the method of encryption: packages/utils/src/encryption.ts.
use request_network.Base.{String, Result, ok, err, ◌>>=◌, if◌then◌else◌, str_eq}
use request_network.Types.{Identity, ethereum_address}
use request_network.MultiFormat.{Deserialized}
use request_network.Encryption.{ecies, aes256_cbc, aes256_gcm, unsupported, EncryptionParameters}
use request_network.Encryption.Library.{EncryptionLibrary}
use request_network.Encryption.Symmetric.{
  encrypt_with_aes256cbc, encrypt_with_aes256gcm, decrypt_with_aes256cbc, decrypt_with_aes256gcm,
}
use request_network.Encryption.Elliptic.{ec_encrypt, ec_decrypt, get_address_from_public_key}

-- Encrypted data, `IEncryptedData`, is the object that multi-format reads and writes.
module _ {B : Type 0} (lib : EncryptionLibrary B) where
  unfoldable pub get_identity_from_encryption_params : EncryptionParameters → Result Identity
  get_identity_from_encryption_params params = elim params.method [
    | ecies ↦ do
      address ← get_address_from_public_key lib params.key
      ok (record { type = ethereum_address; value = address })
    | _ ↦ err "encryptionParams.method not supported"
  ]

  unfoldable pub encrypt : String → EncryptionParameters → Result Deserialized
  encrypt contents params = elim params.method [
    | ecies ↦ do
      encrypted ← ec_encrypt lib params.key contents
      ok (record { type = "ecies"; value = encrypted })
    | aes256_cbc ↦ do
      buffer ← encrypt_with_aes256cbc lib (lib.utf8 contents) (lib.from_base64 params.key)
      ok (record { type = "aes256-cbc"; value = lib.base64 buffer })
    | aes256_gcm ↦ do
      buffer ← encrypt_with_aes256gcm lib (lib.utf8 contents) (lib.from_base64 params.key)
      ok (record { type = "aes256-gcm"; value = lib.base64 buffer })
    | unsupported name ↦ err "encryptionParams.method not supported"
  ]

  unfoldable pub decrypt : Deserialized → EncryptionParameters → Result String
  decrypt encrypted_data params =
      if str_eq encrypted_data.type "ecies"
      then elim params.method [
        | ecies ↦ ec_decrypt lib params.key encrypted_data.value
        | _ ↦ err "decryptionParams.method should be ecies"
      ]
      else if str_eq encrypted_data.type "aes256-cbc"
      then elim params.method [
        | aes256_cbc ↦ do
          buffer ←
              decrypt_with_aes256cbc lib (lib.from_base64 encrypted_data.value)
                (lib.from_base64 params.key)
          ok (lib.text buffer)
        | _ ↦ err "decryptionParams.method should be aes256-cbc"
      ]
      else if str_eq encrypted_data.type "aes256-gcm"
      then elim params.method [
        | aes256_gcm ↦ do
          buffer ←
              decrypt_with_aes256gcm lib (lib.from_base64 encrypted_data.value)
                (lib.from_base64 params.key)
          ok (lib.text buffer)
        | _ ↦ err "decryptionParams.method should be aes256-gcm"
      ]
      else err "encryptedData method not supported"
