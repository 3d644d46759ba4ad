-- ===== src/Encryption/Symmetric.antt =====
-- The symmetric ciphers: packages/utils/src/crypto/crypto-wrapper.ts. A buffer is a list of bytes.
use request_network.Base.{ℕ, ◌+◌, String, List, ◌++◌, take, drop, Result, ok, ◌>>=◌}
use request_network.Encryption.Library.{EncryptionLibrary}

abbrev pub initialization_vector_length : ℕ
initialization_vector_length = 16

abbrev pub auth_tag_length : ℕ
auth_tag_length = 16

module _ {B : Type 0} (lib : EncryptionLibrary B) where
  unfoldable pub random32_bytes : List B
  random32_bytes = lib.random_bytes 32

  unfoldable pub encrypt_with_aes256cbc : List B → List B → Result (List B)
  encrypt_with_aes256cbc contents key =
      let iv = lib.random_bytes initialization_vector_length in
      do cipher ← lib.seal_cbc key iv contents; ok (iv ++ (cipher.update ++ cipher.final))

  unfoldable pub encrypt_with_aes256gcm : List B → List B → Result (List B)
  encrypt_with_aes256gcm contents key =
      let iv = lib.random_bytes initialization_vector_length in
      do
        cipher ← lib.seal_gcm key iv contents
        ok (iv ++ (cipher.tag ++ (cipher.update ++ cipher.final)))

  unfoldable pub decrypt_with_aes256cbc : List B → List B → Result (List B)
  unfolding take drop
  decrypt_with_aes256cbc encrypted_and_iv key =
      let iv = take initialization_vector_length encrypted_and_iv in
      let encrypted_data = drop initialization_vector_length encrypted_and_iv in
      lib.open_cbc key iv encrypted_data

  unfoldable pub decrypt_with_aes256gcm : List B → List B → Result (List B)
  unfolding take drop
  decrypt_with_aes256gcm encrypted_and_iv key =
      let iv = take initialization_vector_length encrypted_and_iv in
      let auth_tag = take auth_tag_length (drop initialization_vector_length encrypted_and_iv) in
      let encrypted_data = drop (initialization_vector_length + auth_tag_length) encrypted_and_iv in
      lib.open_gcm key iv auth_tag encrypted_data

  -- `generate32BufferKey` of packages/utils/src/crypto.ts
  unfoldable pub generate32_buffer_key : String
  unfolding random32_bytes
  generate32_buffer_key = lib.base64 random32_bytes
