-- ===== src/TransactionManager/Channels/Keys.antt =====
-- The key of an encrypted channel, as transactions-factory.ts encrypts it for a party and
-- transactions-parser.ts decrypts it by the provider of the party.
use request_network.Base.{
  ok_value, ◌≡◌, refl, ap, sym, ◌∙◌, ◌⊎◌, true, false, not, String, some, [], ◌∷◌, Dict, lower,
  insert, ok, ◌>>=◌, >>=-eq-ok, arith, str_eq, throw_if,
}
use request_network.Types.{Identity, ethereum_address}
use request_network.MultiFormat.{Deserialized, serialize, deserialize}
use request_network.MultiFormat.Laws.{deserialize-serialize}
use request_network.MultiFormat.Exact.{deserialize-serialize_ecies}
use request_network.Encryption.{Method, ecies, EncryptionParameters}
use request_network.Encryption.Library.{IsSymmetric}
use request_network.Encryption.Elliptic.{ec_encrypt, get_address_from_public_key}
use request_network.Encryption.Methods.{encrypt, decrypt, get_identity_from_encryption_params}
use request_network.Encryption.Laws.{decrypt-encrypt, Fits}
use request_network.TransactionManager.{DecryptionProvider, Environment}
use request_network.TransactionManager.Parser.{try_identity, try_key, try_keys, decrypt_channel_key}
use request_network.TransactionManager.Factory.{
  identity_object, encrypted_key_and_identity, encrypted_keys_and_identities, keys_object,
  encrypted_keys, all_ecies,
}
use request_network.TransactionManager.Channels.Encrypted.{gcm_params}

module _ {B : Type 0} (env : Environment B) (provider : DecryptionProvider)
    (opening : EncryptionParameters) where
  -- A provider that keeps the private key of an address: it knows the identity of the address, in the
  -- case of letters in which it is given or in lower case, and decrypts for it by that key.
  pub record Keeps (address : String) : Type 0 where
    pub registers :
        (v : String)
        → (v ≡ address) ⊎ (v ≡ lower address)
        → provider.is_identity_registered (record { type = ethereum_address; value = v }) ≡ ok true
    pub decrypts :
        (e : Deserialized) (identity : Identity)
        → provider.decrypt e identity ≡ decrypt env.encryption e opening

  ecies-type :
      (k : String) (m : Method) (public_key : String) {e : Deserialized}
      → m ≡ ecies
      → encrypt env.encryption k (record { method = m; key = public_key }) ≡ ok e
      → e.type ≡ "ecies"
  unfolding encrypt
  ecies-type k Method.ecies public_key {e} method h =
      let (closed, _, last) = >>=-eq-ok (ec_encrypt env.encryption public_key k) _ h in
      ap (λ r. r.type) (sym (ok_value last))
  ecies-type k m public_key method h = ground arith

  -- The identity that a key is made for.
  identity-made :
      (m : Method) (public_key address : String) {identity : Identity}
      → m ≡ ecies
      → get_address_from_public_key env.encryption public_key ≡ ok address
      → get_identity_from_encryption_params env.encryption (record { method = m; key = public_key })
        ≡ ok identity
      → identity ≡ record { type = ethereum_address; value = address }
  unfolding get_identity_from_encryption_params
  identity-made Method.ecies public_key address {identity} method located h =
      ok_value (sym h ∙ rw located refl)
  identity-made m public_key address method located h = ground arith

  is_ecies-method :
      (p : EncryptionParameters) (message : String) {u : Unit {0}}
      → throw_if (not (all_ecies (p ∷ []))) message ≡ ok u
      → p.method ≡ ecies
  unfolding all_ecies
  is_ecies-method p message h = ground arith

  try_identity-kept :
      (i : Identity) (s k : String)
      → provider.is_identity_registered i ≡ ok true
      → (deserialize s >>= λ key. provider.decrypt key i) ≡ ok k
      → try_identity provider i s ("", "") ≡ ok (k, "")
  unfolding try_identity
  try_identity-kept i s k registered opens = rw (try_identity, registered, ◌>>=◌, opens) refl

  -- What is encrypted for the party is opened by its provider.
  try_key-kept :
      IsSymmetric env.encryption
      → (k address : String) (p : EncryptionParameters) {e : Deserialized} {s id : String}
      → p.method ≡ ecies
      → Fits env.encryption p opening
      → Keeps address
      → encrypt env.encryption k p ≡ ok e
      → serialize e ≡ ok s
      → serialize (identity_object (record { type = ethereum_address; value = address })) ≡ ok id
      → try_key provider id s ("", "") ≡ ok (k, "")
  unfolding try_key
  try_key-kept symmetric k address p {e} {s} {id} method fits keeps closed written named =
      let (read, whole) =
        deserialize-serialize_ecies e (ecies-type k p.method p.key method closed) written in
      let (d, known, (type, value)) =
        deserialize-serialize
          (identity_object (record { type = ethereum_address; value = address })) named in
      let opened : decrypt env.encryption e opening ≡ ok k =
        decrypt-encrypt env.encryption symmetric k p opening fits closed in
      let registered = keeps.registers d.value value in
      let decrypted = keeps.decrypts e (record { type = ethereum_address; value = d.value }) in
      let opens : (deserialize s >>= λ key.
      provider.decrypt key (record { type = ethereum_address; value = d.value }))
          ≡ ok k =
        rw read (decrypted ∙ opened) in
      rw (try_key, known, type)
        (try_identity-kept (record { type = ethereum_address; value = d.value }) s k registered
          opens)

  -- The keys that are made for one party are opened by its provider.
  pub decrypt_channel_key-encrypted_keys :
      IsSymmetric env.encryption
      → (k address : String) (p : EncryptionParameters) {keys : Dict String}
      → encrypted_keys env k (p ∷ []) ≡ ok keys
      → Fits env.encryption p opening
      → get_address_from_public_key env.encryption p.key ≡ ok address
      → Keeps address
      → str_eq k "" ≡ false
      → decrypt_channel_key (some provider) keys "ecies-aes256-gcm" ≡ ok (gcm_params env k)
  unfolding encrypted_keys all_ecies encrypted_keys_and_identities encrypted_key_and_identity
      keys_object decrypt_channel_key get_identity_from_encryption_params try_keys insert
  decrypt_channel_key-encrypted_keys symmetric k address p {keys} h fits located keeps nonempty =
      let (_, all, h₁) = >>=-eq-ok (throw_if (not (all_ecies (p ∷ []))) _) _ h in
      let (pairs, made, h₂) = >>=-eq-ok (encrypted_keys_and_identities env k (p ∷ [])) _ h₁ in
      let (first, one, h₃) = >>=-eq-ok (encrypted_key_and_identity env k p) _ made in
      let (e, closed, h₄) = >>=-eq-ok (encrypt env.encryption k p) _ one in
      let (identity, found, h₅) =
        >>=-eq-ok (get_identity_from_encryption_params env.encryption p) _ h₄ in
      let (id, named, last) = >>=-eq-ok (serialize (identity_object identity)) _ h₅ in
      let method = is_ecies-method p _ all in
      let party = identity-made p.method p.key address method located found in
      let pairs_are : (e, id) ∷ [] ≡ pairs = ap (λ x. x ∷ []) (ok_value last) ∙ ok_value h₃ in
      let held : keys_object env [] ((e, id) ∷ []) ≡ ok keys =
        ap (keys_object env []) pairs_are ∙ h₂ in
      let (s, written, only) = >>=-eq-ok (serialize e) _ held in
      let keys_are : (id, s) ∷ [] ≡ keys = ok_value only in
      let opens : try_key provider id s ("", "") ≡ ok (k, "") =
        try_key-kept symmetric k address p method fits keeps closed written
          (ap (λ i. serialize (identity_object i)) (sym party) ∙ named) in
      rw (← keys_are, opens, nonempty) refl
