-- ===== src/Login/Handshake.antt =====
-- The whole login: what one side gives to its SendPacketToSocket, the other side's handler gets, in order.
use project_secure_chat.Base.{
  ℕ, suc, ◌≤◌, ◌≡◌, sym, ap, ◌∙◌, Bool, true, false, List, [], ◌∷◌, length,
}
use project_secure_chat.Base.Result.{Result, ok, ◌>>=◌}
use project_secure_chat.Buffer.Text.{NonZero}
use project_secure_chat.Crypto.OpenSsl.{OpenSsl, IsCipher, IsRsa}
use project_secure_chat.Wire.Socket.{send_packet_to_socket}
use project_secure_chat.Wire.Hybrid.{HasKeys}
use project_secure_chat.Wire.Sealed.{send-IsTransport}
use project_secure_chat.Crypto.Keys.{Bytes, zip_xor_comm}
use project_secure_chat.Packet.Defs.{Packet}
use project_secure_chat.Peer.State.{
  Peer, Config, authenticated, aes256, new_server, server_key_filenames,
}
use project_secure_chat.Login.Run.{run, flush, handle_all, Send}
use project_secure_chat.Login.Server
use project_secure_chat.Login.Client
use project_secure_chat.Login.Turns.{
  client_of, greet_lem, answer_lem, accept_lem, confirm_lem, admit_lem,
}
use project_secure_chat.Buffer.Defs.{ByteBuffer}
use project_secure_chat.Login.Parts.{IsRandom}
use project_secure_chat.Login.Accepting.{nonce_value, minus_one}

module _ (o : OpenSsl) (cfg : Config) (be : Bool) (known taken : List ℕ → Bool) (send : Send) where
  -- `hello` stands for the packet with which the session manager starts the login. Each side starts
  -- every turn with nothing sent. The Booleans say of the client's last packet that the session joins
  -- the default channel.
  unfoldable pub handshake : Packet → Peer → Peer → Result (List Bool × Peer × Peer)
  handshake hello s c = do
    (no1, s1) ← run (Server.handle_login o cfg be known send taken hello) s
    (no2, s2) ← run (flush send) s1
    (no3, c1) ← run (handle_all (Client.handle_login o be send) s2.sent) c
    (no4, s3) ←
        run (handle_all (Server.handle_login o cfg be known send taken) c1.sent)
          (record s2 { sent = [] })
    (no5, c2) ← run (handle_all (Client.handle_login o be send) s3.sent) (record c1 { sent = [] })
    (joins, s4) ←
        run (handle_all (Server.handle_login o cfg be known send taken) c2.sent)
          (record s3 { sent = [] })
    ok (joins, s4, c2)

-- The names of the server's files of keys, once it has taken this name of a user.
abbrev pub files_for : Config → List ℕ → Peer
files_for cfg name = server_key_filenames cfg (record (new_server 0 0) { temp_username = name })

module _ (o : OpenSsl) (law : IsRandom o) (cipher : IsCipher o) (keyed : IsRsa o)
    (cfg ccfg : Config) (be : Bool) (known taken : List ℕ → Bool) (now : ℕ) where
  -- Both sides of the login, with the program's SendPacketToSocket, where each side handles the packets that the other one gave it: for a user whom the database knows,
  -- whose name has up to 16 bytes and no zero, and under whose name no session is found, with files of
  -- keys on both sides whose private ones can be read and whose names have no zero and fewer than 60000 bytes,
  -- without a password, and with AES, RSA and a random generator that do what their documentation says: nothing throws, the server lets
  -- the session join, both sides end authenticated under AES-256 with the same key, and the server
  -- knows the session by the user's name.
  pub handshake_lem :
      (hello : Packet) (name : List ℕ) (a b draws : ℕ)
      → HasKeys o (client_of ccfg name draws).my_priv_key (client_of ccfg name draws).other_pub_key
      → HasKeys o (files_for cfg name).my_priv_key (files_for cfg name).other_pub_key
      → NonZero name
      → length name ≤ 16
      → known name ≡ true
      → taken name ≡ false
      → (s' : Peer) × (c' : Peer) × (handshake o cfg be known taken
            (send_packet_to_socket o be now)
            hello
            (new_server a b)
            (client_of ccfg name draws)
          ≡ ok (true ∷ [], s', c'))
        × (s'.status ≡ authenticated)
        × (c'.status ≡ authenticated)
        × (s'.enc ≡ aes256)
        × (c'.enc ≡ aes256)
        × (s'.key.storage ≡ c'.key.storage)
        × (s'.username ≡ name)
  unfolding handshake server_key_filenames
  handshake_lem hello name a b draws keys_c keys_s nz short kn free =
      let send = send_packet_to_socket o be now in
      let ship = send-IsTransport o law cipher keyed be now in
      let nonce = o.random_bytes 0 32 in
      let part = o.random_bytes draws 32 in
      let own = o.random_bytes (suc draws) 32 in
      let len = law.count 0 32 in
      let len_part = law.count draws 32 in
      let len_own = law.count (suc draws) 32 in
      let fit = law.bytes_fit draws 32 in
      let (s1, s2, e1, e2, sent2, nonce2, enc2, at2) =
        greet_lem o law cfg be known taken send ship hello a b in
      let (c1, e3, sent3, nonce3, key3, at3) =
        answer_lem o law cfg be known taken send ship ccfg nonce name draws keys_c short len in
      let (key, s3, e4, k, sent4, key4, enc4, test4, user4, at4) =
        accept_lem o law cfg be known taken send ship name part nonce own s2 at2 enc2 keys_s nonce2
          nz short kn len len_own len_part fit in
      let len_key : length key ≡ 32 = ap length k ∙ law.count s2.draws 32 in
      let fit_key : Bytes key = rw k (law.bytes_fit s2.draws 32) in
      let (c2, e5, sent5, key5, enc5, at5) =
        confirm_lem o law cfg be known taken send ship own key part c1 at3 nonce3 key3 len_own
          len_key len_part fit_key fit in
      let (s4, e6, key6, enc6, user6, status6) =
        admit_lem o law cfg be known taken send ship name (minus_one (nonce_value be own)) s3 at4
          user4 test4 free short in
      (
        s4,
        c2,
        rw (e1, e2, sent2, e3, sent3, e4, sent4, e5, sent5, e6),
        status6,
        at5.status,
        enc6 ∙ enc4,
        enc5,
        ap (λ (b : ByteBuffer). b.storage) key6
            ∙ ap (λ (b : ByteBuffer). b.storage) key4
            ∙ zip_xor_comm key part fit_key fit (len_key ∙ sym len_part)
            ∙ sym (ap (λ (b : ByteBuffer). b.storage) key5),
        user6,
      )
