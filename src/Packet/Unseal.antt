-- ===== src/Packet/Unseal.antt =====
-- src/shared/networking/packet.cpp: Packet::Decrypt. The Boolean of a result says whether the
-- function returned 0.
use project_secure_chat.Base.{
  ℕ, ◌+◌, ◌-◌, ◌%◌, ◌^◌, Bool, true, false, not, Option, none, some, List, [], ◌++◌, if◌then◌else◌,
  drop, codes,
}
use project_secure_chat.Base.Result.{Result, ok, err, ◌>>=◌}
use project_secure_chat.Buffer.Defs.{
  ByteBuffer, size, empty, clear, append_from, append_buffer, read_text, read_skip,
}
use project_secure_chat.Crypto.OpenSsl.{OpenSsl}
use project_secure_chat.Crypto.Aes.{aes_decrypt}
use project_secure_chat.Crypto.Rsa.{Code, minus_one, rsa_decrypt, rsa_verify}
use project_secure_chat.Packet.Defs.{Packet, PacketMode, mode_plain, mode_aes, mode_rsa, mode_hyb}
use project_secure_chat.Packet.Seal.{zero_code, is_plain, hybrid_params}

-- 512 bytes of RSA in front of the packet, and of the signature at its end.
abbrev pub rsa_bsize : ℕ
rsa_bsize = 512

-- A subtraction of size_t.
abbrev pub sub_size : ℕ → ℕ → ℕ
sub_size m n = (m + 2 ^ 64 - n) % 2 ^ 64

-- On the server, the key of the user whose name stands in the message; `dir` is where the keys of the
-- clients are. On the client there is no `dir`.
signer_file : Bool → Option (List ℕ) → List ℕ → ByteBuffer → Result (List ℕ)
signer_file be none pub_file msg = ok pub_file
signer_file be (some dir) pub_file msg = do
  m1 ← read_skip 8 msg
  (user, m2) ← read_text be m1
  ok (dir ++ (user ++ codes ".pub"))

-- The message and its signature, at the end of what AES gave.
check_sign :
    OpenSsl → Bool → Option (List ℕ) → List ℕ → Bool × ByteBuffer → Result (Bool × ByteBuffer)
check_sign o be dir pub_file (false, plain) = ok (false, plain)
check_sign o be dir pub_file (true, plain) = do
  msg ← append_from (drop plain.rpos plain.storage) (sub_size (size plain) rsa_bsize) empty
  plain' ← read_skip (sub_size (size plain) rsa_bsize) plain
  sign ← append_from (drop plain'.rpos plain'.storage) rsa_bsize empty
  file ← signer_file be dir pub_file msg
  ok (zero_code (rsa_verify o file msg sign), plain')

open_key :
    OpenSsl
    → Bool
    → Option (List ℕ)
    → List ℕ
    → ByteBuffer
    → Code × ByteBuffer
    → Result (Bool × ByteBuffer)
open_key o be dir pub_file block (code, key) =
    if not (zero_code code)
    then ok (false, empty)
    else (do r ← aes_decrypt o key block empty; check_sign o be dir pub_file r)

-- What each mode leaves: the packet, whose cursor the hybrid mode moves, and the plaintext with the
-- return value.
abbrev pub Opened : Type 0
Opened = ByteBuffer × (Bool × ByteBuffer)

-- MODE_HYB
unfoldable pub open_hybrid :
    OpenSsl → Bool → Option (List ℕ) → ByteBuffer → ByteBuffer → Result Opened
unfolding signer_file check_sign open_key
open_hybrid o be dir par b = do
  rsa_block ← append_from (drop b.rpos b.storage) rsa_bsize empty
  b1 ← read_skip rsa_bsize b
  aes_block ← append_from (drop b1.rpos b1.storage) (sub_size b1.wpos b1.rpos) empty
  (pub_file, priv_file, password) ← hybrid_params be par
  wrapped ← rsa_decrypt o priv_file password rsa_block empty
  r ← open_key o be dir pub_file aes_block wrapped
  ok (b1, r)

-- MODE_RSA: `par >> priv` and `par >> pwd` in one `try`. Where a text has no end, what was read of it
-- stays in the variable, and the packet is decrypted without a password first.
read_rsa_params : Bool → ByteBuffer → List ℕ × List ℕ × Bool
read_rsa_params be par = elim (read_text be par) [
  | err e ↦ (drop par.rpos par.storage, [], false)
  | ok (priv_file, p1) ↦ elim (read_text be p1) [
    | err e ↦ (priv_file, drop p1.rpos p1.storage, false)
    | ok (password, p2) ↦ (priv_file, password, true)
  ]
]

unfoldable pub open_rsa : OpenSsl → Bool → ByteBuffer → ByteBuffer → Result (Bool × ByteBuffer)
unfolding read_rsa_params
open_rsa o be par b = do
  let (priv_file, password, complete) = read_rsa_params be par
  (code, plain) ← if complete then ok (minus_one, empty) else rsa_decrypt o priv_file none b empty
  (code', plain') ← rsa_decrypt o priv_file (some password) b plain
  ok (zero_code code', plain')

open_body : OpenSsl → Bool → Option (List ℕ) → PacketMode → ByteBuffer → ByteBuffer → Result Opened
open_body o be dir mode_plain par b = ok (b, (true, b))
open_body o be dir mode_aes par b = do r ← aes_decrypt o par b empty; ok (b, r)
open_body o be dir mode_rsa par b = do r ← open_rsa o be par b; ok (b, r)
open_body o be dir mode_hyb par b = open_hybrid o be dir par b

-- The end of Decrypt: on success the plaintext takes the place of the contents.
open_with : Packet → Opened → Result (Bool × Packet)
open_with p (b, (done, plain)) = if not done then ok (false, record p { buffer = b }) else (do
  b' ← append_buffer plain (clear b)
  ok (true, record p { buffer = b'; encrypted = false }))

-- Decrypt(par).
unfoldable pub decrypt :
    OpenSsl → Bool → Option (List ℕ) → ByteBuffer → Packet → Result (Bool × Packet)
unfolding open_body open_with
decrypt o be dir par p =
    if is_plain p.mode
    then ok (true, p)
    else (do r ← open_body o be dir p.mode par p.buffer; open_with p r)
