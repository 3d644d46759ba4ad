-- ===== src/Encryption/Instance.antt =====
-- A library whose bytes are characters and whose ciphers leave the contents as they are: what is
-- documented of the ciphers can hold.
use Prim.Native.Char.{Char}
use Prim.Native.String.{◌∷◌ as cons, [] as empty}
use request_network.Base.{
  ok_value, ℕ, zero, suc, String, List, [], ◌∷◌, ◌++◌, ◌≡◌, refl, sym, ok, length, ap,
}
use request_network.Crypto.{returned}
use request_network.Encryption.Library.{EncryptionLibrary, IsSymmetric, IsEcies}
use request_network.Encryption.Opened.{returned_value}

unfoldable pub characters : String → List Char
characters empty = []
characters (cons c s) = c ∷ characters s

unfoldable pub joined : List Char → String
joined [] = ""
joined (c ∷ l) = cons c (joined l)

joined-characters : (s : String) → joined (characters s) ≡ s
unfolding joined characters
joined-characters empty = refl
joined-characters (cons c s) = ap (cons c) (joined-characters s)

characters-joined : (l : List Char) → characters (joined l) ≡ l
unfolding joined characters
characters-joined [] = refl
characters-joined (c ∷ l) = ap (λ r. c ∷ r) (characters-joined l)

unfoldable pub zeros : ℕ → List Char
zeros zero = []
zeros (suc n) = "0" ∷ zeros n

length-zeros : (n : ℕ) → length (zeros n) ≡ n
unfolding zeros
length-zeros zero = refl
length-zeros (suc n) = ap suc (length-zeros n)

append_nil : (l : List Char) → (l ++ []) ≡ l
append_nil [] = refl
append_nil (c ∷ l) = ap (λ r. c ∷ r) (append_nil l)

abbrev pub plain_library : EncryptionLibrary Char
plain_library = record {
  utf8 = characters;
  text = joined;
  base64 = joined;
  from_base64 = characters;
  hex = joined;
  from_hex = characters;
  random_bytes = zeros;
  seal_cbc = λ key iv plain. ok (record { update = plain; final = []; tag = [] });
  open_cbc = λ key iv closed. ok closed;
  seal_gcm = λ key iv plain. ok (record { update = plain; final = []; tag = zeros 16 });
  open_gcm = λ key iv tag closed. ok closed;
  public_key_convert = λ key short. returned (zeros 33);
  compute_address = λ key. returned "0xaaaaaaaaaaaaaaaaaaaaaaaaaaaaaaaaaaaaaaaa";
  compute_private_address = λ key. returned "0xaaaaaaaaaaaaaaaaaaaaaaaaaaaaaaaaaaaaaaaa";
  sign_digest = λ key digest. returned "signature";
  encrypt_ecies = λ key plain.
      returned
        (record { iv = zeros 16; ephem_public_key = zeros 33; mac = zeros 32; ciphertext = plain });
  decrypt_ecies = λ key e. returned e.ciphertext;
}

pub plain_library-IsSymmetric : IsSymmetric plain_library
plain_library-IsSymmetric = record {
  text_utf8 = joined-characters;
  base64_bytes = characters-joined;
  random_length = length-zeros;
  cbc_opens = λ key iv plain s sealed. rw (sym (ok_value sealed)) (ap ok (append_nil plain));
  gcm_tag = λ key iv plain s sealed. rw (sym (ok_value sealed)) (length-zeros 16);
  gcm_opens = λ key iv plain s sealed. rw (sym (ok_value sealed)) (ap ok (append_nil plain));
}

pub plain_library-IsEcies : IsEcies plain_library (characters "secret") (zeros 33)
plain_library-IsEcies = record {
  hex_bytes = characters-joined;
  iv_length = λ plain e closed. rw (sym (returned_value closed)) (length-zeros 16);
  mac_length = λ plain e closed. rw (sym (returned_value closed)) (length-zeros 32);
  compressed_length = λ k c pressed. rw (sym (returned_value pressed)) (length-zeros 33);
  decompressed = λ plain e c closed pressed. rw (sym (returned_value closed)) refl;
  ecies_opens = λ plain e closed. rw (sym (returned_value closed)) refl;
}
