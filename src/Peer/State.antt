-- ===== src/Peer/State.antt =====
-- src/shared/session/sessionbase.h and sessionbase.cpp: the state of a session and the methods that
-- set and ask it. Both subclasses keep their fields for the login here too: the server its timers and
-- the name that is not accepted yet.
use project_secure_chat.Base.{
  ℕ, suc, Bool, true, false, not, Option, none, some, List, [], ◌++◌, ltb, leb, ◌==◌, if◌then◌else◌,
  length, codes,
}
use project_secure_chat.Base.Result.{Result, ok, ◌>>=◌}
use project_secure_chat.Buffer.Defs.{ByteBuffer, empty, clear, append_from, compare}
use project_secure_chat.LockQueue.{LockQueue, empty_queue, add, next}
use project_secure_chat.Timer.{IntervalTimer, new_timer}
use project_secure_chat.Crypto.OpenSsl.{OpenSsl}
use project_secure_chat.Crypto.Random.{generate_random_data}
use project_secure_chat.Packet.Defs.{Packet}

-- SessionStatus, SessionEncryption; `plain` is ENC_NONE.
pub data Status : Type 0 where
  none_status rejected disconnected connected login_step_1 login_step_2 login_step_3 authenticated :
      Status

pub data Encryption : Type 0 where
  unspec plain aes128 aes256 rsa hyb : Encryption

abbrev pub status_code : Status → ℕ
status_code none_status = 0
status_code rejected = 1
status_code disconnected = 2
status_code connected = 3
status_code login_step_1 = 4
status_code login_step_2 = 5
status_code login_step_3 = 6
status_code authenticated = 7

abbrev pub max_user_len : ℕ
max_user_len = 16

abbrev pub nonce_size : ℕ
nonce_size = 32

-- `open`: m_Socket is there and not closed. `server`: IsServer(). `sent` is what was given to
-- SendPacketToSocket, `wire` the blocks given to the socket for it. `draws` counts the calls of the
-- random generator.
pub record Peer : Type 0 where
  pub opened : Bool
  pub server : Bool
  pub username : List ℕ
  pub temp_username : List ℕ
  pub status : Status
  pub enc : Encryption
  pub next_enc : Encryption
  pub my_nonce : ByteBuffer
  pub other_nonce : ByteBuffer
  pub password : List ℕ
  pub my_priv_key : List ℕ
  pub my_pub_key : List ℕ
  pub other_pub_key : List ℕ
  pub test_data : ℕ
  pub key : ByteBuffer
  pub key_tmp : ByteBuffer
  pub change_keys : ℕ
  pub id_send : ℕ
  pub id_receive : ℕ
  pub has_this : Bool
  pub send_queue : LockQueue Packet
  pub key_timer : IntervalTimer
  pub keep_alive_timer : IntervalTimer
  pub sent : List Packet
  pub wire : List (List ℕ)
  pub draws : ℕ

-- The constructors; on the server the numbers `send` and `receive` are not initialised, and what
-- stands in memory.
unfoldable pub new_client : Peer
new_client = record {
  opened = false;
  server = false;
  username = [];
  temp_username = [];
  status = disconnected;
  enc = plain;
  next_enc = unspec;
  my_nonce = empty;
  other_nonce = empty;
  password = [];
  my_priv_key = [];
  my_pub_key = [];
  other_pub_key = [];
  test_data = 0;
  key = empty;
  key_tmp = empty;
  change_keys = 0;
  id_send = 0;
  id_receive = 0;
  has_this = false;
  send_queue = empty_queue;
  key_timer = new_timer;
  keep_alive_timer = new_timer;
  sent = [];
  wire = [];
  draws = 0;
}

unfoldable pub new_server : ℕ → ℕ → Peer
unfolding new_client
new_server send receive = record new_client {
  opened = true;
  server = true;
  status = connected;
  id_send = send;
  id_receive = receive;
  has_this = true;
}

unfoldable pub close : Peer → Peer
close s = record s { opened = false }

unfoldable pub set_username : List ℕ → Peer → Bool × Peer
set_username n s =
    if ltb max_user_len (length n) then (false, s) else (true, record s { username = n })

-- Session::SetTempUsername of the server.
unfoldable pub set_temp_username : List ℕ → Peer → Bool × Peer
set_temp_username n s =
    if ltb max_user_len (length n) then (false, s) else (true, record s { temp_username = n })

abbrev symmetric : Encryption → Bool
symmetric aes128 = true
symmetric aes256 = true
symmetric _ = false

abbrev encrypted : Encryption → Bool
encrypted plain = false
encrypted _ = true

unfoldable pub is_encrypted : Peer → Bool
is_encrypted s = encrypted s.enc

unfoldable pub is_symmetric : Peer → Bool
is_symmetric s = symmetric s.enc

unfoldable pub set_encryption_key : ByteBuffer → Encryption → Peer → Peer
set_encryption_key k e s = record s { key = k; enc = e }

unfoldable pub set_encryption : Encryption → Peer → Peer
set_encryption e s = record s { enc = e }

unfoldable pub set_next_encryption : Encryption → Peer → Peer
set_next_encryption e s = record s { next_enc = e }

unfoldable pub is_authenticated : Peer → Bool
is_authenticated s = status_code s.status == status_code authenticated

unfoldable pub is_connected : Peer → Bool
is_connected s = leb (status_code connected) (status_code s.status)

unfoldable pub is_rejected : Peer → Bool
is_rejected s = status_code s.status == status_code rejected

unfoldable pub set_connected : Bool → Peer → Peer
set_connected c s =
    if c
    then record s { status = connected }
    else record s { status = disconnected; enc = plain; opened = false }

unfoldable pub set_session_status : Status → Peer → Peer
set_session_status st s = record s { status = st }

unfoldable pub set_password : List ℕ → Peer → Peer
set_password pwd s = record s { password = pwd }

unfoldable pub have_password : Peer → Bool
have_password s = ltb 0 (length s.password)

unfoldable pub clear_password : Peer → Peer
clear_password s = record s { password = [] }

unfoldable pub generate_nonce : OpenSsl → Peer → Result Peer
generate_nonce o s = do
  n ← generate_random_data o s.draws nonce_size s.my_nonce
  ok (record s { my_nonce = n; draws = suc s.draws })

unfoldable pub set_other_nonce : List ℕ → Peer → Result Peer
set_other_nonce nonce s = do
  n ← append_from nonce nonce_size (clear s.other_nonce)
  ok (record s { other_nonce = n })

unfoldable pub check_nonce : List ℕ → Peer → Result Bool
check_nonce nonce s = compare nonce s.my_nonce

unfoldable pub reset_packet_num : Peer → Peer
reset_packet_num s = record s { id_send = 0; id_receive = 0 }

-- SendPacket of the server: the packet waits in the queue for the network's thread, and a session
-- that has lost its own pointer closes its socket.
unfoldable pub queue_packet : Packet → Peer → Peer
queue_packet p s =
    if not s.opened
    then s
    else if s.has_this
    then record s { send_queue = add p s.send_queue }
    else close s

-- GetPacketToSend.
unfoldable pub get_packet_to_send : Peer → Option (Packet × Peer)
get_packet_to_send s = if not s.opened then none else elim (next s.send_queue) [
  | none ↦ none
  | some (p, q) ↦ some (p, record s { send_queue = q })
]

-- The configuration, as far as the sessions ask it.
pub record Config : Type 0 where
  pub rsa_prefix : List ℕ
  pub rsa_my_keys : List ℕ
  pub rsa_client_pub_key : List ℕ
  pub rsa_server_pub_key : List ℕ
  pub key_refresh_interval : ℕ
  pub login_timeout : ℕ

-- UpdateKeyFilenames, on the server and on the client.
unfoldable pub server_key_filenames : Config → Peer → Peer
server_key_filenames cfg s =
    let file = cfg.rsa_prefix ++ cfg.rsa_my_keys in
    record s {
      my_priv_key = file ++ codes ".pem";
      my_pub_key = file ++ codes ".pub";
      other_pub_key =
          (cfg.rsa_prefix ++ cfg.rsa_client_pub_key) ++ (s.temp_username ++ codes ".pub");
    }

unfoldable pub client_key_filenames : Config → Peer → Peer
client_key_filenames cfg s =
    let file = (cfg.rsa_prefix ++ cfg.rsa_my_keys) ++ s.username in
    record s {
      my_priv_key = file ++ codes ".pem";
      my_pub_key = file ++ codes ".pub";
      other_pub_key = (cfg.rsa_prefix ++ cfg.rsa_server_pub_key) ++ codes ".pub";
    }

abbrev pub asymmetric : Encryption → Bool
asymmetric rsa = true
asymmetric hyb = true
asymmetric _ = false
