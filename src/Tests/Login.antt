-- ===== src/Tests/Login.antt =====
-- Instances of the theorems on the login and the exchange of keys.
use project_secure_chat.Buffer.Defs.{ByteBuffer}
use project_secure_chat.Packet.Sealing.{holding}
use project_secure_chat.Wire.Socket.{send_packet_to_socket}
use project_secure_chat.Base.{
  ℕ, zero, suc, ◌%◌, ◌<◌, ◌≡◌, refl, ap, inl, inr, Bool-cases, ◌&&◌, Bool, true, false, List, [],
  ◌∷◌, ◌++◌, ◌==◌, codes, replicate, length-replicate, arith,
}
use project_secure_chat.Base.Result.{ok}
use project_secure_chat.Crypto.Keys.{Bytes}
use project_secure_chat.Crypto.Toy.{toy, toy-IsCipher, toy-IsRsa}
use project_secure_chat.Crypto.Rsa.{rsa_priv_key, given_password}
use project_secure_chat.Login.Handshake.{handshake, handshake_lem}
use project_secure_chat.Peer.State.{client_key_filenames, server_key_filenames}
use project_secure_chat.Opcode.Defs.{smsg_refresh_key}
use project_secure_chat.Packet.Defs.{Packet, new_packet}
use project_secure_chat.Timer.{update, passed}
use project_secure_chat.Peer.State.{
  Peer, Config, authenticated, login_step_2, aes256, new_client, new_server, set_encryption,
  set_next_encryption, set_encryption_key, reset_packet_num, asymmetric,
}
use project_secure_chat.Login.Run.{Send, after_send}
use project_secure_chat.Login.Server
use project_secure_chat.Login.Parts.{IsRandom}
use project_secure_chat.Login.Closing.{confirmation, finish_login_lem}
use project_secure_chat.Login.Turns.{client_of}
use project_secure_chat.Login.Refresh.{IsOnline}
use project_secure_chat.Login.Renewal.{renewal, renewal_lem}
use project_secure_chat.Login.Admission.{Outside, Proven, authenticated_only}

replicate-Bytes : (n b : ℕ) → b < 256 → Bytes (replicate n b)
replicate-Bytes zero b h = tt
replicate-Bytes (suc n) b h = (h, replicate-Bytes n b h)

toy-IsRandom : IsRandom toy
toy-IsRandom = record {
  count = λ draw n. length-replicate n (draw % 256);
  bytes_fit = λ draw n. replicate-Bytes n (draw % 256) (omega arith);
}

-- A connection that keeps what is sent.
abbrev recorder : Send
recorder p s =
    (ok tt, after_send p.opcode (record s { sent = s.sent ++ p ∷ []; wire = s.wire ++ [] ∷ [] }))

abbrev config : Config
config = record {
  rsa_prefix = codes "keys/";
  rsa_my_keys = codes "server";
  rsa_client_pub_key = codes "client_";
  rsa_server_pub_key = codes "server";
  key_refresh_interval = 60;
  login_timeout = 10;
}

abbrev knows_all : List ℕ → Bool
knows_all name = true

abbrev takes_none : List ℕ → Bool
takes_none name = false

handshake_lem_example :
    (s : Peer) × (c : Peer) × (handshake toy config true knows_all takes_none
        (send_packet_to_socket toy true 50)
        (new_packet 0)
        (new_server 5 6)
        (client_of config (codes "Bob") 7)
      ≡ ok (true ∷ [], s, c))
    × (s.status ≡ authenticated)
    × (c.status ≡ authenticated)
    × (s.enc ≡ aes256)
    × (c.enc ≡ aes256)
    × (s.key.storage ≡ c.key.storage)
    × (s.username ≡ codes "Bob")
unfolding client_key_filenames server_key_filenames new_client new_server rsa_priv_key
    given_password
handshake_lem_example =
    handshake_lem toy toy-IsRandom toy-IsCipher toy-IsRsa config config true knows_all takes_none 50
      (new_packet 0) (codes "Bob") 5 6 7
      (record {
        key = 1;
        reads = refl;
        mine_fits = omega arith;
        other_fits = omega arith;
        mine_short = omega arith;
        other_short = omega arith;
      })
      (record {
        key = 1;
        reads = refl;
        mine_fits = omega arith;
        other_fits = omega arith;
        mine_short = omega arith;
        other_short = omega arith;
      })
      (omega arith) (omega arith) refl refl

abbrev key32 : ByteBuffer
key32 = holding (replicate 32 7)

abbrev online_server : Peer
online_server = record (new_server 5 6) {
  status = authenticated;
  enc = aes256;
  key = key32;
  change_keys = 2;
  key_timer = record { interval = 60000; current = 59000 };
}

abbrev online_client : Peer
online_client = record (client_of config (codes "Bob") 7) {
  status = authenticated;
  enc = aes256;
  key = key32;
}

server-IsOnline : IsOnline online_server
unfolding new_server new_client
server-IsOnline = record {
  opened = refl;
  prepares = refl;
  status = refl;
  under = refl;
  good = refl;
}

client-IsOnline : IsOnline online_client
unfolding new_client client_key_filenames
client-IsOnline = record {
  opened = refl;
  prepares = refl;
  status = refl;
  under = refl;
  good = refl;
}

renewal_lem_example :
    (s : Peer) × (c : Peer) × (renewal toy config true knows_all
        (send_packet_to_socket toy true 50)
        1000
        online_server
        online_client
      ≡ ok (s, c))
    × (s.key.storage ≡ c.key.storage)
    × (s.enc ≡ aes256)
    × (c.enc ≡ aes256)
    × (s.id_send ≡ 0)
    × (s.id_receive ≡ 0)
    × (c.id_send ≡ 0)
    × (c.id_receive ≡ 0)
    × (s.change_keys ≡ 2)
unfolding new_server new_client client_key_filenames passed update
renewal_lem_example =
    renewal_lem toy toy-IsRandom toy-IsCipher config true knows_all 50 1000 online_server
      online_client server-IsOnline client-IsOnline refl refl refl refl refl refl

abbrev almost_in : Peer
almost_in = record (new_server 5 6) {
  status = login_step_2;
  test_data = 9;
  temp_username = codes "Bob";
}

recorder-keeps : (p : Packet) (s : Peer) → Outside s → Outside (recorder p s).1
unfolding after_send set_encryption set_next_encryption set_encryption_key reset_packet_num
recorder-keeps p s h =
    elim (Bool-cases (s.server && (p.opcode == smsg_refresh_key && s.change_keys == 1))) [
      | inl e ↦ rw e h
      | inr e ↦ elim (Bool-cases (s.server && asymmetric s.next_enc)) [
        | inl f ↦ rw (e, f) h
        | inr f ↦ rw (e, f) h
      ]
    ]

authenticated_only_example :
    (almost_in.status ≡ login_step_2)
    × Proven true takes_none (confirmation true 8).buffer almost_in
unfolding new_server new_client Server.handle_login Server.finish_login
authenticated_only_example =
    authenticated_only toy config true knows_all takes_none recorder (confirmation true 8) almost_in
      recorder-keeps refl
      (ap (λ r. r.1.status)
        (finish_login_lem toy true recorder config knows_all takes_none 9 almost_in refl refl
          (omega arith)))
