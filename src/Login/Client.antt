-- ===== src/Login/Client.antt =====
-- src/client/session/session.cpp: HandleLogin and HandleRefreshKey. What they tell the user is left out.
use project_secure_chat.Base.{true, ℕ, suc, ◌+◌, ◌-◌, ◌%◌, ◌^◌, Bool, ◌==◌, if◌then◌else◌, codes}
use project_secure_chat.Base.Result.{ok}
use project_secure_chat.Buffer.Words.{w32}
use project_secure_chat.Buffer.Defs.{
  ByteBuffer, size, empty, clear, append_text, append_buffer, append_bytes, append_value, read,
  read_text, read_bytes, bytes_eq,
}
use project_secure_chat.Crypto.OpenSsl.{OpenSsl}
use project_secure_chat.Crypto.Random.{generate_random_key}
use project_secure_chat.Crypto.Keys.{xor_buffer}
use project_secure_chat.Opcode.Defs.{cmsg_login, cmsg_refresh_key}
use project_secure_chat.Packet.Defs.{Packet}
use project_secure_chat.Peer.State.{
  Peer, Status, none_status, rejected, disconnected, connected, login_step_1, login_step_2,
  login_step_3, authenticated, hyb, aes256, nonce_size, close, set_encryption_key, set_encryption,
  set_session_status, generate_nonce, set_other_nonce, check_nonce, reset_packet_num,
}
use project_secure_chat.Login.Run.{M, ◌>>=◌, ◌>>◌, lift, get, become, modify, Send, packet_of}

module _ (o : OpenSsl) (be : Bool) (send : Send) where
  -- STATUS_CONNECTED: the name, a part of the key, the server's nonce and an own one.
  unfoldable pub answer_nonce : ByteBuffer → M (Unit {0})
  answer_nonce packet = do
    modify (λ s. set_encryption hyb (set_session_status login_step_1 s))
    s ← get
    b1 ← lift (append_text s.username empty)
    (done, key) ← lift (generate_random_key o s.draws 32 s.key)
    become (record s { key = key; draws = suc s.draws })
    b2 ← lift (append_buffer key b1)
    (nonce, rest) ← lift (read_bytes nonce_size packet)
    s1 ← get
    s2 ← lift (set_other_nonce nonce s1)
    become s2
    b3 ← lift (append_buffer s2.other_nonce b2)
    s3 ← lift (generate_nonce o s2)
    become s3
    b4 ← lift (append_buffer s3.my_nonce b3)
    send (packet_of cmsg_login b4)

  -- The server is who it says, and its part of the key follows.
  derive_key : ByteBuffer → M (Unit {0})
  derive_key packet = do
    modify (set_session_status login_step_2)
    (tmp, rest) ← lift (read_bytes 32 packet)
    key_tmp ← lift (append_bytes tmp empty)
    s ← get
    k ← lift (xor_buffer be s.key key_tmp)
    become (reset_packet_num (set_encryption_key k aes256 s))

  check_server : ByteBuffer → M (Unit {0})
  check_server packet = do
    (nonce, rest) ← lift (read_bytes nonce_size packet)
    s ← get
    same ← lift (check_nonce nonce s)
    if same then derive_key rest else modify (set_session_status rejected)

  -- ResetSocket: a new socket, which is not closed.
  reset_socket : Peer → Peer
  reset_socket s = record s { opened = true }

  -- STATUS_LOGIN_STEP_1; the test value is loaded on every path that does not throw.
  unfoldable pub check_response : ByteBuffer → M (Unit {0})
  unfolding derive_key check_server reset_socket
  check_response packet = do
    (response, rest) ← lift (read_text be packet)
    if bytes_eq response (codes "acc")
        then check_server rest
        else modify (λ s. reset_socket (close (set_session_status rejected s)))
    s ← get
    (t, nonce) ← lift (read be w32 s.my_nonce)
    become (record s { my_nonce = nonce; test_data = t })

  confirm : ℕ → M (Unit {0})
  confirm recv_data = do
    b ← lift (append_value be w32 ((recv_data + 2 ^ 32 - 1) % 2 ^ 32) empty)
    send (packet_of cmsg_login b)
    modify (set_session_status authenticated)

  -- STATUS_LOGIN_STEP_2
  unfoldable pub check_test : ByteBuffer → M (Unit {0})
  unfolding confirm
  check_test packet = do
    (recv_data, rest) ← lift (read be w32 packet)
    s ← get
    if recv_data == (s.test_data + 2 ^ 32 - 1) % 2 ^ 32 then confirm recv_data else modify close

  abbrev pub login_in : Status → ByteBuffer → M (Unit {0})
  login_in connected packet = answer_nonce packet
  login_in login_step_1 packet = check_response packet
  login_in login_step_2 packet = check_test packet
  login_in none_status packet = lift (ok tt)
  login_in rejected packet = lift (ok tt)
  login_in disconnected packet = lift (ok tt)
  login_in login_step_3 packet = lift (ok tt)
  login_in authenticated packet = lift (ok tt)

  unfoldable pub handle_login : Packet → M (Unit {0})
  handle_login packet s = login_in s.status packet.buffer s

  take_key : M (Unit {0})
  take_key = modify (λ s. reset_packet_num (set_encryption_key s.key_tmp aes256 s))

  answer_key : ByteBuffer → M (Unit {0})
  answer_key part = do
    s ← get
    (done, mine) ← lift (generate_random_key o s.draws 32 empty)
    become (record s { draws = suc s.draws })
    b ← lift (append_buffer mine empty)
    send (packet_of cmsg_refresh_key b)
    k ← lift (xor_buffer be mine part)
    modify (λ s. record s { key_tmp = clear s.key_tmp })
    t ← lift (append_buffer k empty)
    modify (λ s. record s { key_tmp = t })

  -- HandleRefreshKey: an empty packet says that the new key is in force, one of 32 bytes is the
  -- server's part of it.
  unfoldable pub handle_refresh_key : Packet → M (Unit {0})
  unfolding take_key answer_key
  handle_refresh_key packet =
      if size packet.buffer == 0
      then take_key
      else if size packet.buffer == 32
      then answer_key packet.buffer
      else lift (ok tt)
