-- ===== src/Encryption.antt =====
-- The encryption of packages/utils/src/: the data of packages/types/src/encryption-types.ts, and
-- what the code calls of NodeJs and of its libraries. A child holds the symmetric ciphers
-- (crypto/crypto-wrapper.ts), one the elliptic curve (crypto/ec-utils.ts), and one the choice of
-- the method (encryption.ts).
pub mod Symmetric
pub mod Elliptic
pub mod Methods
pub mod Library
pub mod Opened
pub mod Laws
pub mod Instance
mod Tests
use request_network.Base.{String}

-- `EncryptionTypes.METHOD`; `unsupported` is any other text.
pub data Method : Type 0 where
  ecies aes256_cbc aes256_gcm : Method
  unsupported : String → Method

abbrev pub method_text : Method → String
method_text ecies = "ecies"
method_text aes256_cbc = "aes256-cbc"
method_text aes256_gcm = "aes256-gcm"
method_text (unsupported name) = name

-- `IEncryptionParameters` and `IDecryptionParameters`, which have the same fields.
pub record EncryptionParameters : Type 0 where
  pub method : Method
  pub key : String
