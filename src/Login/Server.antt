-- ===== src/Login/Server.antt =====
-- src/server/session/session.cpp: HandleLogin and HandleRefreshKey, the timers of the login and of the
-- key. `known` is CheckUsername of the database, `taken` whether the session manager finds a session
-- of that name. Of the last step, the Boolean says whether the session joins the default channel.
use project_secure_chat.Base.{
  ℕ, suc, ◌+◌, ◌-◌, ◌%◌, ◌^◌, Bool, true, false, not, ◌&&◌, ◌||◌, List, ◌==◌, if◌then◌else◌, codes,
}
use project_secure_chat.Base.Result.{ok}
use project_secure_chat.Buffer.Words.{w32}
use project_secure_chat.Buffer.Defs.{
  ByteBuffer, empty, append_text, append_buffer, append_bytes, append_value, read, read_text,
  read_bytes,
}
use project_secure_chat.Crypto.OpenSsl.{OpenSsl}
use project_secure_chat.Crypto.Random.{generate_random_key}
use project_secure_chat.Crypto.Keys.{xor_buffer}
use project_secure_chat.Opcode.Defs.{smsg_login, smsg_refresh_key}
use project_secure_chat.Packet.Defs.{Packet}
use project_secure_chat.Timer.{update, passed, set_current, init_login_interval}
use project_secure_chat.Peer.State.{
  Peer, Config, Status, none_status, rejected, disconnected, connected, login_step_1, login_step_2,
  login_step_3, authenticated, hyb, aes256, nonce_size, close, set_username, is_authenticated,
  set_temp_username, set_encryption_key, set_next_encryption, set_session_status, generate_nonce,
  set_other_nonce, check_nonce, reset_packet_num, queue_packet, server_key_filenames,
}
use project_secure_chat.Login.Run.{M, ◌>>=◌, ◌>>◌, lift, get, become, modify, Send, packet_of}

module _ (o : OpenSsl) (cfg : Config) (be : Bool) (known : List ℕ → Bool) (send : Send) where
  -- STATUS_CONNECTED
  unfoldable pub start_login : M (Unit {0})
  start_login = do
    modify (λ s. set_next_encryption hyb (set_session_status login_step_1 s))
    s ← get
    s1 ← lift (generate_nonce o s)
    become s1
    b ← lift (append_buffer s1.my_nonce empty)
    modify (queue_packet (packet_of smsg_login b))
    modify (λ s. record s {
      keep_alive_timer = init_login_interval cfg.login_timeout s.keep_alive_timer;
    })

  -- The name, whether the database knows it, and the nonce that came back.
  unfoldable pub check_user : List ℕ → List ℕ → M Bool
  check_user user rec_nonce = do
    s ← get
    let (valid, s1) = set_temp_username user s
    become s1
    if not valid || not (known user) then lift (ok false) else lift (check_nonce rec_nonce s1)

  -- The session key is derived and tried out on a value of the client's nonce.
  unfoldable pub prove_key : ByteBuffer → M (Unit {0})
  prove_key key_tmp = do
    s ← get
    k ← lift (xor_buffer be s.key key_tmp)
    become (reset_packet_num (set_encryption_key k aes256 s))
    (t, nonce) ← lift (read be w32 s.other_nonce)
    let test = (t + 2 ^ 32 - 1) % 2 ^ 32
    modify (λ s. record s { other_nonce = nonce; test_data = test })
    b ← lift (append_value be w32 test empty)
    send (packet_of smsg_login b)

  unfoldable pub accept_user : ByteBuffer → M (Unit {0})
  accept_user key_tmp = do
    modify (λ s. server_key_filenames cfg (set_session_status login_step_2 s))
    s ← get
    b1 ← lift (append_text (codes "acc") empty)
    b2 ← lift (append_buffer s.other_nonce b1)
    (done, key) ← lift (generate_random_key o s.draws 32 s.key)
    become (record s { key = key; draws = suc s.draws })
    b3 ← lift (append_buffer key b2)
    send (packet_of smsg_login b3)
    prove_key key_tmp

  unfoldable pub reject_user : M (Unit {0})
  reject_user = do
    modify (set_session_status rejected)
    b ← lift (append_text (codes "rej") empty)
    send (packet_of smsg_login b)
    modify close

  -- STATUS_LOGIN_STEP_1
  unfoldable pub check_login : ByteBuffer → M (Unit {0})
  check_login packet = do
    (user, p1) ← lift (read_text be packet)
    (tmp, p2) ← lift (read_bytes 32 p1)
    key_tmp ← lift (append_bytes tmp empty)
    (rec_nonce, p3) ← lift (read_bytes nonce_size p2)
    (nonce, p4) ← lift (read_bytes nonce_size p3)
    s ← get
    s1 ← lift (set_other_nonce nonce s)
    become s1
    valid ← check_user user rec_nonce
    if valid then accept_user key_tmp else reject_user

  abbrev pub turn_away : M Bool
  turn_away = do modify (λ s. set_session_status rejected (close s)); lift (ok false)

  abbrev pub authenticate : M Bool
  authenticate = do
    s ← get
    let (done, s1) = set_username s.temp_username s
    become (set_session_status authenticated s1)
    lift (ok true)

  -- STATUS_LOGIN_STEP_2
  unfoldable pub finish_login : (List ℕ → Bool) → ByteBuffer → M Bool
  finish_login taken packet = do
    (recv_data, rest) ← lift (read be w32 packet)
    s ← get
    if not (recv_data == (s.test_data + 2 ^ 32 - 1) % 2 ^ 32) || taken s.temp_username
        then turn_away
        else authenticate

  abbrev pub quiet : M (Unit {0}) → M Bool
  quiet m = do m; lift (ok false)

  abbrev pub login_in : Status → (List ℕ → Bool) → ByteBuffer → M Bool
  login_in connected taken packet = quiet start_login
  login_in login_step_1 taken packet = quiet (check_login packet)
  login_in login_step_2 taken packet = finish_login taken packet
  login_in none_status taken packet = lift (ok false)
  login_in rejected taken packet = lift (ok false)
  login_in disconnected taken packet = lift (ok false)
  login_in login_step_3 taken packet = lift (ok false)
  login_in authenticated taken packet = lift (ok false)

  unfoldable pub handle_login : (List ℕ → Bool) → Packet → M Bool
  handle_login taken packet s = login_in s.status taken packet.buffer s

  answer_key : ByteBuffer → M (Unit {0})
  answer_key part = do
    s ← get
    k ← lift (xor_buffer be s.key_tmp part)
    become (record s { key_tmp = k; change_keys = 1 })
    send (packet_of smsg_refresh_key empty)

  -- HandleRefreshKey: a part that was not asked for is dropped.
  unfoldable pub handle_refresh_key : Packet → M (Unit {0})
  unfolding answer_key
  handle_refresh_key packet = do
    s ← get
    if not (s.change_keys == 0) then lift (ok tt) else answer_key packet.buffer

  new_key : M (Unit {0})
  new_key = do
    s ← get
    (done, k) ← lift (generate_random_key o s.draws 32 s.key_tmp)
    become (record s { key_tmp = k; draws = suc s.draws; change_keys = 0 })
    b ← lift (append_buffer k empty)
    send (packet_of smsg_refresh_key b)
    modify (λ s. record s { key_timer = set_current 0 s.key_timer })

  -- GenerateNewKey(diff)
  unfoldable pub generate_new_key : ℕ → M (Unit {0})
  unfolding new_key
  generate_new_key diff = do
    s ← get
    let timer = update diff s.key_timer
    let ticks = is_authenticated s && not (diff == 0)
    modify (λ s. if ticks then record s { key_timer = timer } else s)
    if ticks && (passed timer && not (s.change_keys == 1)) then new_key else lift (ok tt)

-- The states in which a session has not logged in yet.
abbrev pub waiting : Status → Bool
waiting authenticated = false
waiting connected = false
waiting rejected = false
waiting _ = true

-- LoginTimer(diff): who has not logged in when the time is over is thrown out.
unfoldable pub login_timer : ℕ → Peer → Peer
login_timer diff s =
    let timer = update diff s.keep_alive_timer in
    if not (waiting s.status) || diff == 0
    then s
    else if passed timer
    then set_session_status rejected (close (record s { keep_alive_timer = timer }))
    else record s { keep_alive_timer = timer }
