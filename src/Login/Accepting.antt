-- ===== src/Login/Accepting.antt =====
-- The third step of the login: the server accepts the client's answer.
use project_secure_chat.Wire.Hybrid.{HasKeys}
use project_secure_chat.Buffer.Words.{length-encode}
use project_secure_chat.Crypto.Keys.{length-zip_xor}
use project_secure_chat.Peer.State.{hyb}
use project_secure_chat.Login.Run.{ready_under}
use project_secure_chat.Base.{◌∙◌}
use project_secure_chat.Base.{
  ℕ, suc, ◌+◌, ◌-◌, ◌%◌, ◌^◌, ◌≡◌, refl, Bool, true, List, [], ◌∷◌, ◌++◌, length, length-append,
  take, codes, arith,
}
use project_secure_chat.Base.Result.{ok}
use project_secure_chat.Buffer.Words.{w32, encode, decode}
use project_secure_chat.Buffer.Defs.{ByteBuffer, empty}
use project_secure_chat.Buffer.Append.{
  IsValid-empty, extend, extend-IsValid, append_text_lem, append_value_lem,
}
use project_secure_chat.Buffer.Read.{advance, read_lem}
use project_secure_chat.Crypto.OpenSsl.{OpenSsl}
use project_secure_chat.Crypto.Keys.{Bytes, zip_xor, xor_buffer_lem}
use project_secure_chat.Opcode.Defs.{smsg_login}
use project_secure_chat.Packet.Defs.{Packet}
use project_secure_chat.Peer.State.{
  Peer, Config, login_step_2, unspec, aes256, set_encryption_key, reset_packet_num,
  set_session_status, server_key_filenames,
}
use project_secure_chat.Login.Run.{Send, packet_of, IsTransport, delivers_quiet}
use project_secure_chat.Login.Server
use project_secure_chat.Login.Parts.{
  IsRandom, filled, filled-IsValid, append_filled, random_key_lem,
}

-- The key that both sides derive.
abbrev pub shared_key : List ℕ → List ℕ → ByteBuffer
shared_key mine theirs = record (filled mine) { storage = zip_xor mine theirs }

-- The test value that both sides take from a nonce, less one.
abbrev pub nonce_value : Bool → List ℕ → ℕ
nonce_value be nonce = decode be w32 (take 4 nonce)

abbrev pub minus_one : ℕ → ℕ
minus_one t = (t + 2 ^ 32 - 1) % 2 ^ 32

-- The two packets of the acceptance.
abbrev pub acceptance : List ℕ → List ℕ → Packet
acceptance own key = packet_of smsg_login (extend key (extend own (filled (codes "acc" ++ 0 ∷ []))))

abbrev pub test_packet : Bool → ℕ → Packet
test_packet be t = packet_of smsg_login (filled (encode be w32 t))

-- The state of the server once it has sent the test value under the new key.
abbrev pub proven : Bool → Peer → List ℕ → List ℕ → List ℕ → ℕ × ℕ → List ℕ → Peer
proven be s own part key n raw =
    let test = minus_one (nonce_value be own) in
    record s {
      enc = aes256;
      other_nonce = advance 4 (filled own);
      key = shared_key key part;
      test_data = test;
      id_send = n.0;
      draws = n.1;
      id_receive = 0;
      sent = s.sent ++ test_packet be test ∷ [];
      wire = s.wire ++ raw ∷ [];
    }

module _ (o : OpenSsl) (law : IsRandom o) (be : Bool) (send : Send) (cfg : Config)
    (known : List ℕ → Bool) (ship : IsTransport o send) where
  prove_key_lem :
      (own part key : List ℕ) (s : Peer)
      → s.opened ≡ true
      → s.next_enc ≡ unspec
      → s.other_nonce ≡ filled own
      → s.key ≡ filled key
      → length own ≡ 32
      → length part ≡ 32
      → length key ≡ 32
      → Bytes part
      → Bytes key
      → (n : ℕ × ℕ) × (raw : List ℕ) × (Server.prove_key o cfg be known send (filled part) s
          ≡ (ok tt, proven be s own part key n raw))
  unfolding Server.prove_key set_encryption_key reset_packet_num
  prove_key_lem own part key s h k e f len_own len_part len_key fit fit_key =
      let test = minus_one (nonce_value be own) in
      let size_key : length (zip_xor key part) ≡ 32 =
        length-zip_xor key part (omega arith) ∙ len_key in
      let s1 : Peer = record s {
        id_send = 0;
        id_receive = 0;
        enc = aes256;
        key = shared_key key part;
        other_nonce = advance 4 (filled own);
        test_data = test;
      } in
      let (n, raw, sends) =
        delivers_quiet o send ship (test_packet be test) s1 h (rw size_key refl)
          (omega (arith, length-encode be w32 test)) k refl in
      (
        n,
        raw,
        rw (
          f,
          xor_buffer_lem be (filled key) (filled part) (filled-IsValid part (omega arith))
              (omega arith) (omega arith) fit_key fit,
          e,
          read_lem be w32 (filled own) (filled-IsValid own (omega arith)) (omega arith),
          append_value_lem be w32 test empty IsValid-empty (omega arith),
          sends,
        ),
      )

  -- The state of the server once it has accepted.
  abbrev pub accepted : Peer → List ℕ → List ℕ → ℕ × ℕ → List ℕ → List ℕ → Peer
  accepted s own part n raw1 raw2 =
      let key = o.random_bytes s.draws 32 in
      let s1 : Peer = record (server_key_filenames cfg s) {
        status = login_step_2;
        draws = suc s.draws;
        sent = s.sent ++ acceptance own key ∷ [];
        wire = s.wire ++ raw1 ∷ [];
      } in
      proven be s1 own part key n raw2

  pub accept_user_lem :
      (own part : List ℕ) (s : Peer)
      → s.opened ≡ true
      → s.enc ≡ hyb
      → HasKeys o
          (server_key_filenames cfg s).my_priv_key
          (server_key_filenames cfg s).other_pub_key
      → s.password ≡ []
      → s.next_enc ≡ unspec
      → s.other_nonce ≡ filled own
      → length own ≡ 32
      → length part ≡ 32
      → Bytes part
      → (n : ℕ × ℕ) × (raw1 : List ℕ) × (raw2 : List ℕ) × (Server.accept_user o cfg be known send
            (filled part)
            s
          ≡ (ok tt, accepted s own part n raw1 raw2))
  unfolding Server.accept_user set_session_status server_key_filenames
  accept_user_lem own part s h en keys bare k e len_own len_part fit =
      let key = o.random_bytes s.draws 32 in
      let c = law.count s.draws 32 in
      let acc = codes "acc" ++ 0 ∷ [] in
      let b1 = filled acc in
      let v1 = filled-IsValid acc (omega arith) in
      let b2 = extend own b1 in
      let v2 = extend-IsValid own b1 v1 (omega arith) in
      let l2 = length-append acc own in
      let s1 : Peer = record (server_key_filenames cfg s) {
        status = login_step_2;
        key = filled key;
        draws = suc s.draws;
        other_nonce = filled own;
      } in
      let (n1, raw1, sends1) =
        delivers_quiet o send ship (acceptance own key) s1 h (ready_under o hyb s1 en (keys, bare))
          (omega (arith, l2, c, length-append (acc ++ own) key)) k refl in
      let s2 : Peer = record s1 {
        id_send = n1.0;
        draws = n1.1;
        sent = s.sent ++ acceptance own key ∷ [];
        wire = s.wire ++ raw1 ∷ [];
      } in
      let (n2, raw2, proves) =
        prove_key_lem own part key s2 h k refl refl len_own len_part c fit
          (law.bytes_fit s.draws 32) in
      (
        n2,
        raw1,
        raw2,
        rw
            (
              append_text_lem (codes "acc") empty IsValid-empty (omega arith),
              e,
              append_filled own b1 v1 (omega arith) (omega arith) (omega arith),
              random_key_lem o law s.draws s.key,
              append_filled key b2 v2 (omega arith) (omega arith) (omega arith),
              sends1,
            )
            proves,
      )
