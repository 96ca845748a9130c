-- ===== src/Crypto/OpenSsl.antt =====
-- What crypto.cpp calls of OpenSSL and of the file system: a parameter of the model.
use project_secure_chat.Base.{
  ℕ, ◌+◌, ◌%◌, ◌≤◌, ◌≡◌, Bool, true, false, Option, List, ◌++◌, length, some, ◌<◌,
}

-- The `int` that the EVP functions return; the program asks only whether it is negative.
pub data Ret : Type 0 where
  one zero_ret negative : Ret

abbrev pub is_negative : Ret → Bool
is_negative one = false
is_negative zero_ret = false
is_negative negative = true

pub record OpenSsl : Type 0 where
  -- RAND_bytes and RAND_pseudo_bytes: the bytes of the n-th call, and how many.
  pub random_bytes : ℕ → ℕ → List ℕ
  -- AES in CBC mode, its variant chosen by the size of the key: what the call of Update and the
  -- call of Final return and write, for a key, an initial vector and an input.
  pub encrypt_update : List ℕ → List ℕ → List ℕ → Ret × List ℕ
  pub encrypt_final : List ℕ → List ℕ → List ℕ → Ret × List ℕ
  pub decrypt_update : List ℕ → List ℕ → List ℕ → Ret × List ℕ
  pub decrypt_final : List ℕ → List ℕ → List ℕ → Ret × List ℕ
  pub sha256 : List ℕ → List ℕ
  -- The contents of a file, if it can be opened.
  pub open_file : List ℕ → Option (List ℕ)
  -- PEM_read_*: a key, by a number that stands for it; the private ones under a password or none.
  pub read_public_key : List ℕ → Option ℕ
  pub read_private_key : List ℕ → Option (List ℕ) → Option ℕ
  -- `none` stands for -1, and for 0 of RSA_sign.
  pub public_encrypt : ℕ → List ℕ → Option (List ℕ)
  pub private_decrypt : ℕ → List ℕ → Option (List ℕ)
  pub sign : ℕ → List ℕ → Option (List ℕ)
  pub verify : ℕ → List ℕ → List ℕ → Bool

-- The documented behaviour of the random bytes and of the block cipher with a key of a valid size:
-- every call succeeds on what it was made for, the output of encryption fills whole blocks and
-- is at most one block longer, and
-- decryption undoes it.
pub record IsCipher (o : OpenSsl) : Type 0 where
  pub random_length : (draw n : ℕ) → length (o.random_bytes draw n) ≡ n
  pub update_ok : (key iv text : List ℕ) → (o.encrypt_update key iv text).0 ≡ one
  pub final_ok : (key iv text : List ℕ) → (o.encrypt_final key iv text).0 ≡ one
  pub whole_blocks :
      (key iv text : List ℕ)
      → length ((o.encrypt_update key iv text).1 ++ (o.encrypt_final key iv text).1) % 16 ≡ 0
  pub grows :
      (key iv text : List ℕ)
      → length ((o.encrypt_update key iv text).1 ++ (o.encrypt_final key iv text).1)
        ≤ length text + 16
  pub decrypt_ok :
      (key iv text : List ℕ)
      → let c = (o.encrypt_update key iv text).1 ++ (o.encrypt_final key iv text).1 in
        ((o.decrypt_update key iv c).0 ≡ one)
        × ((o.decrypt_final key iv c).0 ≡ one)
        × ((o.decrypt_update key iv c).1 ++ (o.decrypt_final key iv c).1 ≡ text)

-- The documented behaviour of the RSA functions: with a private key that could be read RSA_sign writes as
-- many bytes as the key has, and RSA_public_encrypt does, where it succeeds on 32 bytes. No key has more than
-- 65536 bytes.
pub record IsRsa (o : OpenSsl) : Type 0 where
  pub signs :
      (key : ℕ) (digest : List ℕ)
      → (s : List ℕ) × (o.sign key digest ≡ some s) × (0 < length s) × (length s ≤ 65536)
  pub wraps :
      (key : ℕ) (text c : List ℕ)
      → length text ≡ 32
      → o.public_encrypt key text ≡ some c
      → (0 < length c) × (length c ≤ 65536)
