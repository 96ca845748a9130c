-- ===== src/Packet/Seal.antt =====
-- src/shared/networking/packet.cpp: Packet::Encrypt and Packet::Decrypt. The Boolean of a result says
-- whether the function returned 0. `draw` is the number of the next call of the random generator; one
-- that a failing branch does not make is counted too.
use project_secure_chat.Base.{
  ℕ, suc, Bool, true, false, not, Option, none, some, List, ltb, ◌==◌, if◌then◌else◌,
}
use project_secure_chat.Base.Result.{Result, ok, ◌>>=◌}
use project_secure_chat.Buffer.Words.{w8}
use project_secure_chat.Buffer.Defs.{
  ByteBuffer, size, empty, clear, append_from, append_buffer, read, read_text,
}
use project_secure_chat.Buffer.Text.{c_string}
use project_secure_chat.Crypto.OpenSsl.{OpenSsl}
use project_secure_chat.Crypto.Random.{generate_random_key}
use project_secure_chat.Crypto.Aes.{aes_encrypt}
use project_secure_chat.Crypto.Rsa.{Code, success, minus_one, plus_one, rsa_encrypt, rsa_sign}
use project_secure_chat.Packet.Defs.{Packet, PacketMode, mode_plain, mode_aes, mode_rsa, mode_hyb}

abbrev pub zero_code : Code → Bool
zero_code success = true
zero_code minus_one = false
zero_code plus_one = false

-- What stands in `par` for the hybrid mode: the two files of keys and the password, if there is one.
unfoldable pub hybrid_params : Bool → ByteBuffer → Result (List ℕ × List ℕ × Option (List ℕ))
hybrid_params be par = do
  (pub_file, p1) ← read_text be par
  (priv_file, p2) ← read_text be p1
  (has_password, p3) ← read be w8 p2
  password ←
      if has_password == 0 then ok none else (do (text, p4) ← read_text be p3; ok (some text))
  ok (pub_file, priv_file, password)

-- What each mode leaves: the packet, and the ciphertext with the return value.
abbrev pub Sealed : Type 0
Sealed = ByteBuffer × (Bool × ByteBuffer)

unfoldable pub seal_key : OpenSsl → ℕ → ByteBuffer → ByteBuffer → Code × ByteBuffer → Result Sealed
seal_key o draw key signed (code, cipher) =
    if not (zero_code code) then ok (signed, (false, cipher)) else (do
      (done, body) ← aes_encrypt o draw key signed empty
      cipher' ← append_buffer body cipher
      ok (signed, (done, cipher')))

-- MODE_HYB: the signature goes behind the contents, a fresh key under RSA in front of both under AES.
unfoldable pub seal_hybrid : OpenSsl → Bool → ℕ → ByteBuffer → ByteBuffer → Result Sealed
unfolding seal_key
seal_hybrid o be draw par b = do
  (pub_file, priv_file, password) ← hybrid_params be par
  (code, sign) ← rsa_sign o priv_file password b empty
  signed ← append_from sign.storage (size sign) b
  (done, key) ← generate_random_key o draw 32 empty
  wrapped ← rsa_encrypt o pub_file key empty
  seal_key o (suc draw) key signed wrapped

seal : OpenSsl → Bool → ℕ → PacketMode → ByteBuffer → ByteBuffer → Result Sealed
seal o be draw mode_plain par b = ok (b, (true, empty))
seal o be draw mode_aes par b = do r ← aes_encrypt o draw par b empty; ok (b, r)
seal o be draw mode_rsa par b = do
  pub_file ← c_string par
  (code, cipher) ← rsa_encrypt o pub_file b empty
  ok (b, (zero_code code, cipher))
seal o be draw mode_hyb par b = seal_hybrid o be draw par b

-- The end of Encrypt: on success the ciphertext takes the place of the contents.
unfoldable pub seal_with : Packet → Sealed → Result (Bool × Packet)
seal_with p (b, (done, cipher)) =
    if not done
    then ok (false, record p { buffer = b })
    else if ltb 0 (size cipher)
    then (do
      b' ← append_from cipher.storage (size cipher) (clear b)
      ok (true, record p { buffer = b'; encrypted = true }))
    else ok (true, record p { buffer = clear b; encrypted = true })

abbrev pub is_plain : PacketMode → Bool
is_plain mode_plain = true
is_plain mode_aes = false
is_plain mode_rsa = false
is_plain mode_hyb = false

-- Encrypt(par).
unfoldable pub encrypt : OpenSsl → Bool → ℕ → ByteBuffer → Packet → Result (Bool × Packet)
unfolding seal seal_with
encrypt o be draw par p =
    if is_plain p.mode
    then ok (true, p)
    else (do r ← seal o be draw p.mode par p.buffer; seal_with p r)
