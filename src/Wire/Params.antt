-- ===== src/Wire/Params.antt =====
-- src/shared/session/sessionbase.cpp: the mode and the parameters that _SendPacketToSocket and
-- _RecvPacketFromSocket give to Encrypt and Decrypt.
use project_secure_chat.Base.{Bool, if◌then◌else◌}
use project_secure_chat.Base.Result.{Result, ok, ◌>>=◌}
use project_secure_chat.Buffer.Words.{w8}
use project_secure_chat.Buffer.Defs.{ByteBuffer, empty, append_text, append_value}
use project_secure_chat.Buffer.Text.{before_zero}
use project_secure_chat.Packet.Defs.{PacketMode, mode_plain, mode_aes, mode_rsa, mode_hyb}
use project_secure_chat.Peer.State.{
  Peer, Encryption, unspec, plain, aes128, aes256, rsa, hyb, have_password,
}

-- The mode of the packet that carries the frame.
abbrev pub mode_of : Encryption → PacketMode
mode_of unspec = mode_plain
mode_of plain = mode_plain
mode_of aes128 = mode_aes
mode_of aes256 = mode_aes
mode_of rsa = mode_rsa
mode_of hyb = mode_hyb

password_params : Bool → Peer → ByteBuffer → Result ByteBuffer
password_params be s b =
    if have_password s
    then (do b1 ← append_value be w8 1 b; append_text (before_zero s.password) b1)
    else append_value be w8 0 b

hybrid_key_params : Bool → Peer → Result ByteBuffer
hybrid_key_params be s = do
  b1 ← append_text s.other_pub_key empty
  b2 ← append_text s.my_priv_key b1
  password_params be s b2

-- For sending.
unfoldable pub seal_params : Bool → Encryption → Peer → Result ByteBuffer
unfolding password_params hybrid_key_params
seal_params be unspec s = ok empty
seal_params be plain s = ok empty
seal_params be aes128 s = ok s.key
seal_params be aes256 s = ok s.key
seal_params be rsa s = append_text s.other_pub_key empty
seal_params be hyb s = hybrid_key_params be s

rsa_params : Peer → Result ByteBuffer
rsa_params s = do
  b ← append_text s.my_priv_key empty
  if have_password s then append_text (before_zero s.password) b else ok b

-- For receiving.
unfoldable pub open_params : Bool → Encryption → Peer → Result ByteBuffer
unfolding password_params hybrid_key_params rsa_params
open_params be unspec s = ok empty
open_params be plain s = ok empty
open_params be aes128 s = ok s.key
open_params be aes256 s = ok s.key
open_params be rsa s = rsa_params s
open_params be hyb s = hybrid_key_params be s
