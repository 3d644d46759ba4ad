-- ===== src/Crypto.antt =====
-- Hashing and signatures: `normalize` and `keccak256Hash` of packages/utils/src/crypto.ts,
-- `ecRecover` of packages/utils/src/crypto/ec-utils.ts, and `recoverSigner` of
-- packages/utils/src/signature.ts. Keccak and the recovery on the curve are an interface.
pub mod Laws
use request_network.Base.{
  ℕ, Bool, false, ◌||◌, String, Option, none, some, Result, ok, err, ◌>>=◌, str_eq, append, lower,
  last_two, but_last_two, first_two, drop_two, if◌then◌else◌,
}
use request_network.Types.{
  Identity, ethereum_address, UnsignedAction, Action, ecdsa, ecdsa_ethereum, unsupported,
}

-- An error that a library throws.
pub record Thrown : Type 0 where
  pub message : String
  pub code : Option String

pub data Attempt (V : Type 0) : Type 0 where
  returned : V → Attempt V
  thrown : Thrown → Attempt V

-- `sorted_json` is `JSON.stringify(deepSort(data))` on an action and on its content;
-- `keccak256` that of ethers on the UTF-8 bytes of a text; `hash_message` that of ethers; and
-- `recover_address` is `ecdsaRecover` of secp256k1, on hexadecimal texts and the recovery number,
-- with `computeAddress` of ethers behind it.
pub record CryptoLibrary : Type 0 where
  pub sorted_json : UnsignedAction → String
  pub sorted_json_signed : Action → String
  pub keccak256 : String → String
  pub hash_message : String → String
  pub recover_address : String → ℕ → String → Attempt String

-- `signature.replace(/^0x/, '')`
unfoldable pub strip_0x : String → String
strip_0x s = if str_eq (first_two s) "0x" then drop_two s else s

abbrev is_length_error : Thrown → Bool
is_length_error e =
    str_eq e.message "signature length is invalid"
    || str_eq e.message "Expected signature to be an Uint8Array with length 64"
    || elim e.code [ some c ↦ str_eq c "INVALID_ARGUMENT" | none ↦ false ]

abbrev rethrow : Attempt String → Result String
rethrow (returned address) = ok address
rethrow (thrown e) =
    if is_length_error e
    then err "The signature must be a string representing 66 bytes"
    else err e.message

module _ (crypto : CryptoLibrary) where
  -- `normalize(data)`
  unfoldable pub normalize : UnsignedAction → String
  normalize content = lower (crypto.sorted_json content)

  -- `normalizeKeccak256Hash(data).value`
  unfoldable pub normalize_keccak256_hash : UnsignedAction → String
  unfolding normalize
  normalize_keccak256_hash content = crypto.keccak256 (normalize content)

  unfoldable pub normalize_keccak256_hash_signed : Action → String
  normalize_keccak256_hash_signed action =
      crypto.keccak256 (lower (crypto.sorted_json_signed action))

  unfoldable pub ec_recover : String → String → Result String
  unfolding strip_0x
  ec_recover signature digest =
      let bare = strip_0x signature in
      let recovery_number : ℕ = if str_eq (last_two bare) "1c" then 1 else 0 in
      rethrow (crypto.recover_address (but_last_two bare) recovery_number (strip_0x digest))

  -- The replacement of V by what Ethereum puts there, as the code makes it.
  unfoldable pub ethereum_v : String → String
  ethereum_v value =
      let v = lower (last_two value) in
      if str_eq v "00"
      then append (but_last_two value) "1b"
      else if str_eq v "01"
      then append (but_last_two value) "1b"
      else value

  unfoldable pub recover_signer : Action → Result Identity
  unfolding normalize_keccak256_hash ec_recover ethereum_v
  recover_signer action = elim action.signature.method [
    | ecdsa ↦ do
      value ← ec_recover action.signature.value (normalize_keccak256_hash action.content)
      ok (record { type = ethereum_address; value = value })
    | ecdsa_ethereum ↦ do
      value ←
          ec_recover (ethereum_v action.signature.value)
            (crypto.hash_message (normalize action.content))
      ok (record { type = ethereum_address; value = lower value })
    | unsupported method ↦ err "signatureParams.method not supported"
  ]
