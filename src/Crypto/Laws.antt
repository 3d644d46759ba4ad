-- ===== src/Crypto/Laws.antt =====
-- The recovery number of a signature by the Ethereum method.
use request_network.Base.{◌≡◌, refl, String, append, lower, last_two-append, but_last_two-append}
use request_network.Types.{Action, ecdsa_ethereum}
use request_network.Crypto.{CryptoLibrary, ethereum_v, recover_signer}

ethereum_v_zero :
    (crypto : CryptoLibrary) (s : String) → ethereum_v crypto (append s "00") ≡ append s "1b"
unfolding ethereum_v lower
ethereum_v_zero crypto s = rw (last_two-append s "0" "0", but_last_two-append s "0" "0") refl

ethereum_v_one :
    (crypto : CryptoLibrary) (s : String) → ethereum_v crypto (append s "01") ≡ append s "1b"
unfolding ethereum_v lower
ethereum_v_one crypto s = rw (last_two-append s "0" "1", but_last_two-append s "0" "1") refl

module _ (crypto : CryptoLibrary) (a b : Action) (s : String) where
  -- Of an action that is signed by the Ethereum method, the signer that is recovered does not depend
  -- on whether its signature ends in 00 or in 01: both are read as 1b.
  pub recover_signer_v :
      a.content ≡ b.content
      → a.signature ≡ record { method = ecdsa_ethereum; value = append s "00" }
      → b.signature ≡ record { method = ecdsa_ethereum; value = append s "01" }
      → recover_signer crypto a ≡ recover_signer crypto b
  unfolding recover_signer
  recover_signer_v same zero one =
      rw (zero, one, same, ethereum_v_zero crypto s, ethereum_v_one crypto s) refl
