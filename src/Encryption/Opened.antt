-- ===== src/Encryption/Opened.antt =====
-- The layouts of bytes of packages/utils/src/crypto/: what is closed is opened.
use request_network.Base.{
  ok_value, drop-add, ◌≡◌, refl, ap, sym, ◌∙◌, Bool, true, false, String, List, ◌++◌, length,
  take-append, drop-append, ok, >>=-eq-ok, arith,
}
use request_network.Crypto.{Attempt, Thrown, returned, thrown, strip_0x}
use request_network.Encryption.{}
use request_network.Encryption.Library.{EncryptionLibrary, Ecies, IsSymmetric, IsEcies}
use request_network.Encryption.Symmetric.{
  encrypt_with_aes256cbc, encrypt_with_aes256gcm, decrypt_with_aes256cbc, decrypt_with_aes256gcm,
}
use request_network.Encryption.Elliptic.{
  catch_as, ◌>>=◌, compress_public_key, ec_parts, ecies_split, ec_encrypt, ec_decrypt,
}

module _ {B : Type 0} (lib : EncryptionLibrary B) where
  module _ (documented : IsSymmetric lib) where
    pub cbc_restores :
        (contents key : List B) {b : List B}
        → encrypt_with_aes256cbc lib contents key ≡ ok b
        → decrypt_with_aes256cbc lib b key ≡ ok contents
    unfolding encrypt_with_aes256cbc decrypt_with_aes256cbc
    cbc_restores contents key {b} h =
        let iv : List B = lib.random_bytes 16 in
        let size : length iv ≡ 16 = documented.random_length 16 in
        let (s, sealed, rest) = >>=-eq-ok (lib.seal_cbc key iv contents) _ h in
        rw (sym (ok_value rest)) (
          rw
            (
              decrypt_with_aes256cbc,
              take-append 16 iv (s.update ++ s.final) size,
              drop-append 16 iv (s.update ++ s.final) size,
            )
            (documented.cbc_opens key iv contents s sealed))

    pub gcm_restores :
        (contents key : List B) {b : List B}
        → encrypt_with_aes256gcm lib contents key ≡ ok b
        → decrypt_with_aes256gcm lib b key ≡ ok contents
    unfolding encrypt_with_aes256gcm decrypt_with_aes256gcm
    gcm_restores contents key {b} h =
        let iv : List B = lib.random_bytes 16 in
        let size : length iv ≡ 16 = documented.random_length 16 in
        let (s, sealed, rest) = >>=-eq-ok (lib.seal_gcm key iv contents) _ h in
        let body : List B = s.update ++ s.final in
        let tag : length s.tag ≡ 16 = documented.gcm_tag key iv contents s sealed in
        rw (sym (ok_value rest)) (
          rw
            (
              decrypt_with_aes256gcm,
              take-append 16 iv (s.tag ++ body) size,
              drop-add 16 16 32 (iv ++ (s.tag ++ body)) refl,
              drop-append 16 iv (s.tag ++ body) size,
              take-append 16 s.tag body tag,
              drop-append 16 s.tag body tag,
            )
            (documented.gcm_opens key iv contents s sealed))

caught :
    {V : Type 0} (known : Thrown → Bool) (message : String) (a : Attempt V) {v : V}
    → catch_as known message a ≡ ok v
    → a ≡ returned v
unfolding catch_as
caught known message (returned v) h = ap returned (ok_value h)
caught known message (thrown e) h = ground arith

next_returned :
    {V W : Type 0} (a : Attempt V) (f : V → Attempt W) {w : W}
    → (a >>= f) ≡ returned w
    → (v : V) × (a ≡ returned v) × (f v ≡ returned w)
next_returned (returned v) f h = (v, refl, h)
next_returned (thrown e) f h = ground arith

pub returned_value : {V : Type 0} {a b : V} → returned a ≡ returned b → a ≡ b
returned_value h = ground arith

-- The parts of an encrypted text are where `eciesSplit` looks for them.
module _ {B : Type 0} (lib : EncryptionLibrary B) where
  split_parts :
      (iv c mac text ephem : List B)
      → ((b : List B) → lib.from_hex (lib.hex b) ≡ b)
      → length iv ≡ 16
      → length c ≡ 33
      → length mac ≡ 32
      → lib.public_key_convert c false ≡ returned ephem
      → ecies_split lib (lib.hex (iv ++ (c ++ (mac ++ text))))
        ≡ returned (record { iv = iv; ephem_public_key = ephem; mac = mac; ciphertext = text })
  unfolding ecies_split
  split_parts iv c mac text ephem decode sizes size same converted =
      let whole : List B = iv ++ (c ++ (mac ++ text)) in
      rw
        (
          ecies_split,
          decode whole,
          drop-add 16 33 49 whole refl,
          drop-add 49 32 81 whole refl,
          drop-add 16 33 49 whole refl,
          take-append 16 iv (c ++ (mac ++ text)) sizes,
          drop-append 16 iv (c ++ (mac ++ text)) sizes,
          take-append 33 c (mac ++ text) size,
          drop-append 33 c (mac ++ text) size,
          take-append 32 mac text same,
          drop-append 32 mac text same,
          converted,
        )
        refl

  -- A private key, and the public key that it opens.
  abbrev pub IsKeyPair : String → String → Type 0
  IsKeyPair private_key public_key =
      (compressed : List B) × (compress_public_key lib public_key ≡ returned compressed)
      × IsEcies lib (lib.from_hex (strip_0x private_key)) compressed

  decrypted :
      IsSymmetric lib
      → {contents : String} (private_key : String) {public_key : List B} (e : Ecies B) (c : List B)
      → IsEcies lib (lib.from_hex (strip_0x private_key)) public_key
      → lib.public_key_convert e.ephem_public_key true ≡ returned c
      → lib.encrypt_ecies public_key (lib.utf8 contents) ≡ returned e
      → ec_decrypt lib private_key (lib.hex (e.iv ++ (c ++ (e.mac ++ e.ciphertext)))) ≡ ok contents
  unfolding ec_decrypt
  decrypted symmetric {contents} private_key e c pair converted closed =
      let body : List B = lib.utf8 contents in
      rw
        (
          ec_decrypt,
          split_parts e.iv c e.mac e.ciphertext e.ephem_public_key pair.hex_bytes
              (pair.iv_length body e closed) (pair.compressed_length _ c converted)
              (pair.mac_length body e closed) (pair.decompressed body e c closed converted),
          pair.ecies_opens body e closed,
          symmetric.text_utf8 contents,
        )
        refl

  pub ec_restores :
      IsSymmetric lib
      → (contents private_key public_key : String) {s : String} → IsKeyPair private_key public_key
      → ec_encrypt lib public_key contents ≡ ok s
      → ec_decrypt lib private_key s ≡ ok contents
  unfolding ec_encrypt ec_decrypt ec_parts
  ec_restores symmetric contents private_key public_key {s} (k, pressed, pair) h =
      let (k', pressed', rest) = next_returned _ _ (caught _ _ _ h) in
      let same : k' ≡ k = returned_value (sym pressed' ∙ pressed) in
      let closes : IsEcies lib (lib.from_hex (strip_0x private_key)) k' = rw same pair in
      let body : List B = lib.utf8 contents in
      let (e, closed, rest') = next_returned (lib.encrypt_ecies k' body) _ rest in
      let (parts, joined, last) = next_returned (ec_parts lib e) _ rest' in
      let (c, converted, concat) =
        next_returned (lib.public_key_convert e.ephem_public_key true) _ joined in
      rw (sym (returned_value last), sym (returned_value concat))
        (decrypted symmetric private_key e c closes converted closed)
