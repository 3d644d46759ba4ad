-- ===== src/RequestLogic/Library.antt =====
-- What the request logic calls and does not implement: big numbers, cryptography, and the package
-- `semver`.
use request_network.Base.{Bool, String, Option}
use request_network.Amount.{BigNumber}
use request_network.Crypto.{CryptoLibrary}

pub record Library (N : Type 0) : Type 0 where
  pub big : BigNumber N
  pub crypto : CryptoLibrary
  pub semver_valid : String → Bool
  pub semver_diff : String → String → Option String
  pub semver_lt : String → String → Bool
  pub semver_lte : String → String → Bool
