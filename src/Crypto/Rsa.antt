-- ===== src/Crypto/Rsa.antt =====
-- src/shared/crypto/crypto.cpp: RsaPubKey, RsaPrivKey, RsaEncrypt, RsaDecrypt, RsaSign, RsaVerify.
-- A `const char*` is the bytes before its zero.
use project_secure_chat.Base.{
  ℕ, ◌<◌, ◌≡◌, refl, Bool, true, false, ◌&&◌, Option, none, some, List, [], ◌∷◌, ◌==◌,
  if◌then◌else◌, length, arith,
}
use project_secure_chat.Base.Result.{Result, ok, err, source, ◌>>=◌}
use project_secure_chat.Buffer.Defs.{
  ByteBuffer, size, empty, clear, append_limit, append_bytes, append_from,
}
use project_secure_chat.Buffer.Text.{before_zero}
use project_secure_chat.Buffer.Append.{IsValid-empty, extend, append_bytes_lem}
use project_secure_chat.Crypto.OpenSsl.{OpenSsl}

-- The `int` of the RSA functions.
pub data Code : Type 0 where
  success minus_one plus_one : Code

-- "-----BEGIN PUBLIC KEY-----"
abbrev pub key_prefix : List ℕ
key_prefix =
    45 ∷ 45 ∷ 45 ∷ 45 ∷ 45 ∷ 66 ∷ 69 ∷ 71 ∷ 73 ∷ 78 ∷ 32 ∷ 80 ∷ 85 ∷ 66 ∷ 76 ∷ 73 ∷ 67 ∷ 32 ∷ 75
    ∷ 69 ∷ 89 ∷ 45 ∷ 45 ∷ 45 ∷ 45 ∷ 45 ∷ []

-- strncmp(str, prefix, strlen(prefix)) == 0.
unfoldable pub has_prefix : List ℕ → List ℕ → Bool
has_prefix [] str = true
has_prefix (c ∷ cs) [] = false
has_prefix (c ∷ cs) (d ∷ ds) = c == d && has_prefix cs ds

-- The key is in the text itself, if it looks like one, or in the file of that name.
unfoldable pub rsa_pub_key : OpenSsl → List ℕ → Option ℕ
rsa_pub_key o str =
    if has_prefix key_prefix str
    then o.read_public_key str
    else elim (o.open_file str) [ none ↦ none | some contents ↦ o.read_public_key contents ]

unfoldable pub rsa_priv_key : OpenSsl → List ℕ → Option (List ℕ) → Option ℕ
rsa_priv_key o str password = elim (o.open_file str) [
  | none ↦ none
  | some contents ↦ o.read_private_key contents password
]

-- `!password || strlen(password) == 0` asks for no password.
unfoldable pub given_password : Option (List ℕ) → Option (List ℕ)
given_password none = none
given_password (some []) = none
given_password (some (c ∷ cs)) = some (c ∷ cs)

-- What RsaEncrypt and RsaDecrypt do with what the library wrote, `none` for its -1.
unfoldable pub store_output : Option (List ℕ) → ByteBuffer → Result (Code × ByteBuffer)
store_output none out = ok (minus_one, out)
store_output (some bs) out = do out' ← append_bytes bs (clear out); ok (success, out')

encrypt_with : OpenSsl → Option ℕ → ByteBuffer → ByteBuffer → Result (Code × ByteBuffer)
encrypt_with o none plain cipher = ok (minus_one, cipher)
encrypt_with o (some key) plain cipher = store_output (o.public_encrypt key plain.storage) cipher

unfoldable pub rsa_encrypt : OpenSsl → List ℕ → ByteBuffer → ByteBuffer → Result (Code × ByteBuffer)
unfolding encrypt_with
rsa_encrypt o key_str plain cipher =
    encrypt_with o (rsa_pub_key o (before_zero key_str)) plain cipher

decrypt_with : OpenSsl → Option ℕ → ByteBuffer → ByteBuffer → Result (Code × ByteBuffer)
decrypt_with o none cipher plain = ok (minus_one, plain)
decrypt_with o (some key) cipher plain = store_output (o.private_decrypt key cipher.storage) plain

unfoldable pub rsa_decrypt :
    OpenSsl → List ℕ → Option (List ℕ) → ByteBuffer → ByteBuffer → Result (Code × ByteBuffer)
unfolding decrypt_with
rsa_decrypt o key_str password cipher plain =
    decrypt_with o (rsa_priv_key o (before_zero key_str) (given_password password)) cipher plain

append_sign : Option (List ℕ) → ByteBuffer → Result (Code × ByteBuffer)
append_sign none sign = ok (plus_one, sign)
append_sign (some bs) sign = do sign' ← append_bytes bs sign; ok (success, sign')

sign_with : OpenSsl → Option ℕ → ByteBuffer → ByteBuffer → Result (Code × ByteBuffer)
unfolding append_sign
sign_with o none content sign = ok (minus_one, sign)
sign_with o (some key) content sign = append_sign (o.sign key (o.sha256 content.storage)) sign

-- RsaSign(key, password, data, sign): the signature of the digest goes behind what `sign` holds.
unfoldable pub rsa_sign :
    OpenSsl → List ℕ → Option (List ℕ) → ByteBuffer → ByteBuffer → Result (Code × ByteBuffer)
unfolding sign_with append_sign
rsa_sign o key_str password content sign =
    sign_with o (rsa_priv_key o (before_zero key_str) (given_password password)) content sign

verify_with : OpenSsl → Option ℕ → ByteBuffer → ByteBuffer → Code
verify_with o none content sign = minus_one
verify_with o (some key) content sign =
    if o.verify key (o.sha256 content.storage) sign.storage then success else plus_one

unfoldable pub rsa_verify : OpenSsl → List ℕ → ByteBuffer → ByteBuffer → Code
unfolding verify_with
rsa_verify o key_str content sign = verify_with o (rsa_pub_key o (before_zero key_str)) content sign

-- What is documented of a public key and a private one that belong together.
pub record IsPair (o : OpenSsl) (public private : ℕ) : Type 0 where
  pub decrypts :
      (text c : List ℕ)
      → o.public_encrypt public text ≡ some c
      → o.private_decrypt private c ≡ some text
  pub verifies :
      (digest s : List ℕ) → o.sign private digest ≡ some s → o.verify public digest s ≡ true

module _ (o : OpenSsl) (pub_name priv_name : List ℕ) (password : Option (List ℕ)) (pk sk : ℕ)
    (pk_read : rsa_pub_key o (before_zero pub_name) ≡ some pk)
    (sk_read : rsa_priv_key o (before_zero priv_name) (given_password password) ≡ some sk)
    (pair : IsPair o pk sk) where
  -- RsaDecrypt gives back the text that RsaEncrypt was given, for a key pair that both can read and a
  -- text that is not empty and that the library encrypts to a block that is not empty; what the
  -- output buffers held before is dropped.
  pub rsa_roundtrip :
      (plain out1 out2 : ByteBuffer) (c : List ℕ)
      → o.public_encrypt pk plain.storage ≡ some c
      → 0 < length c
      → length c < append_limit
      → 0 < size plain
      → size plain < append_limit
      → (b1 : ByteBuffer) × (b2 : ByteBuffer) × (rsa_encrypt o pub_name plain out1
          ≡ ok (success, b1))
        × (rsa_decrypt o priv_name password b1 out2 ≡ ok (success, b2))
        × (b2.storage ≡ plain.storage)
  unfolding rsa_encrypt rsa_decrypt store_output clear
  rsa_roundtrip plain out1 out2 c enc lc lc' lp lp' = (
    extend c empty,
    extend plain.storage empty,
    rw (pk_read, enc, append_bytes_lem c empty IsValid-empty (omega arith) lc (omega arith)),
    rw (
      sk_read,
      pair.decrypts plain.storage c enc,
      append_bytes_lem plain.storage empty IsValid-empty (omega arith) lp (omega arith),
    ),
    refl,
  )

  -- An empty text that the library encrypts cannot be decrypted: the library returns no bytes, and
  -- RsaDecrypt throws when it appends them.
  pub rsa_decrypt_empty :
      (cipher out : ByteBuffer)
      → o.public_encrypt pk [] ≡ some cipher.storage
      → rsa_decrypt o priv_name password cipher out ≡ err source
  unfolding rsa_decrypt store_output append_bytes append_from
  rsa_decrypt_empty cipher out enc = rw (sk_read, pair.decrypts [] cipher.storage enc)

  -- RsaVerify accepts, with the public key, what RsaSign signed with the private one into an empty
  -- buffer, where the signature is not empty and fits a buffer.
  pub rsa_sign_verify :
      (content : ByteBuffer) (s : List ℕ)
      → o.sign sk (o.sha256 content.storage) ≡ some s
      → 0 < length s
      → length s < append_limit
      → (b : ByteBuffer) × (rsa_sign o priv_name password content empty ≡ ok (success, b))
        × (rsa_verify o pub_name content b ≡ success)
  unfolding rsa_sign rsa_verify
  rsa_sign_verify content s signed ls ls' = (
    extend s empty,
    rw (sk_read, signed, append_bytes_lem s empty IsValid-empty (omega arith) ls (omega arith)),
    rw (pk_read, pair.verifies (o.sha256 content.storage) s signed),
  )
