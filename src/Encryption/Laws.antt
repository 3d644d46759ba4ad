-- ===== src/Encryption/Laws.antt =====
-- The round trips of packages/utils/src/encryption.ts.
use request_network.Base.{
  ok_value, ◌≡◌, refl, ◌≢◌, append, ap, sym, ◌∙◌, String, List, ok, err, >>=-eq-ok, arith,
}
use request_network.MultiFormat.{Deserialized}
use request_network.Encryption.{
  Method, ecies, aes256_cbc, aes256_gcm, unsupported, method_text, EncryptionParameters,
}
use request_network.Encryption.Library.{EncryptionLibrary, IsSymmetric}
use request_network.Encryption.Symmetric.{encrypt_with_aes256cbc, encrypt_with_aes256gcm}
use request_network.Encryption.Elliptic.{ec_encrypt}
use request_network.Encryption.Methods.{encrypt, decrypt}
use request_network.Encryption.Opened.{IsKeyPair, cbc_restores, gcm_restores, ec_restores}

module _ {B : Type 0} (lib : EncryptionLibrary B) where
  -- The parameters of a decryption that undo those of an encryption.
  abbrev pub Fits : EncryptionParameters → EncryptionParameters → Type 0
  Fits params opening = (opening.method ≡ params.method) × (elim params.method [
    | ecies ↦ IsKeyPair lib opening.key params.key
    | _ ↦ opening.key ≡ params.key
  ])

  restores :
      IsSymmetric lib
      → (contents : String) (m : Method) (k : String) (opening : EncryptionParameters)
        {e : Deserialized}
      → Fits (record { method = m; key = k }) opening
      → encrypt lib contents (record { method = m; key = k }) ≡ ok e
      → decrypt lib e opening ≡ ok contents
  unfolding encrypt decrypt
  restores symmetric contents ecies k opening {e} (same, pair) h =
      let (s, closed, last) = >>=-eq-ok (ec_encrypt lib k contents) _ h in
      ap (λ x. decrypt lib x opening) (sym (ok_value last))
      ∙ rw (decrypt, same) (ec_restores lib symmetric contents opening.key k pair closed)
  restores symmetric contents aes256_cbc k opening {e} (same, key) h =
      let plain : List B = lib.utf8 contents in
      let secret : List B = lib.from_base64 k in
      let (s, closed, last) = >>=-eq-ok (encrypt_with_aes256cbc lib plain secret) _ h in
      ap (λ x. decrypt lib x opening) (sym (ok_value last))
      ∙ rw
          (
            decrypt,
            same,
            key,
            symmetric.base64_bytes s,
            cbc_restores lib symmetric plain secret closed,
            symmetric.text_utf8 contents,
          )
          refl
  restores symmetric contents aes256_gcm k opening {e} (same, key) h =
      let plain : List B = lib.utf8 contents in
      let secret : List B = lib.from_base64 k in
      let (s, closed, last) = >>=-eq-ok (encrypt_with_aes256gcm lib plain secret) _ h in
      ap (λ x. decrypt lib x opening) (sym (ok_value last))
      ∙ rw
          (
            decrypt,
            same,
            key,
            symmetric.base64_bytes s,
            gcm_restores lib symmetric plain secret closed,
            symmetric.text_utf8 contents,
          )
          refl
  restores symmetric contents (unsupported n) k opening fits h = ground arith

  -- What `encrypt` closes by one of its methods, `decrypt` opens with the same key, or with the
  -- private key of the public key, under the documented behaviour of the libraries.
  pub decrypt-encrypt :
      IsSymmetric lib
      → (contents : String) (params opening : EncryptionParameters) {e : Deserialized}
      → Fits params opening
      → encrypt lib contents params ≡ ok e
      → decrypt lib e opening ≡ ok contents
  decrypt-encrypt symmetric contents params opening fits h =
      restores symmetric contents params.method params.key opening fits h

  refuses :
      (contents : String) (m n : Method) (k j : String) {e : Deserialized}
      → n ≢ m
      → encrypt lib contents (record { method = m; key = k }) ≡ ok e
      → decrypt lib e (record { method = n; key = j })
        ≡ err (append "decryptionParams.method should be " (method_text m))
  unfolding encrypt decrypt
  refuses contents ecies n k j other h =
      let (s, closed, last) = >>=-eq-ok (ec_encrypt lib k contents) _ h in
      ap (λ x. decrypt lib x (record { method = n; key = j })) (sym (ok_value last)) ∙ ground arith
  refuses contents aes256_cbc n k j other h =
      let (s, closed, last) =
        >>=-eq-ok (encrypt_with_aes256cbc lib (lib.utf8 contents) (lib.from_base64 k)) _ h in
      ap (λ x. decrypt lib x (record { method = n; key = j })) (sym (ok_value last)) ∙ ground arith
  refuses contents aes256_gcm n k j other h =
      let (s, closed, last) =
        >>=-eq-ok (encrypt_with_aes256gcm lib (lib.utf8 contents) (lib.from_base64 k)) _ h in
      ap (λ x. decrypt lib x (record { method = n; key = j })) (sym (ok_value last)) ∙ ground arith
  refuses contents (unsupported name) n k j other h = ground arith

  -- What is closed by one method is refused with the parameters of another, by an error that names
  -- the method that closed it.
  pub decrypt-encrypt_other :
      (contents : String) (params opening : EncryptionParameters) {e : Deserialized}
      → opening.method ≢ params.method
      → encrypt lib contents params ≡ ok e
      → decrypt lib e opening
        ≡ err (append "decryptionParams.method should be " (method_text params.method))
  decrypt-encrypt_other contents params opening other h =
      refuses contents params.method opening.method params.key opening.key other h
