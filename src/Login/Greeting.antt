-- ===== src/Login/Greeting.antt =====
-- The first two steps of the login: the server sends its nonce, and the client answers.
use project_secure_chat.Wire.Hybrid.{HasKeys}
use project_secure_chat.Base.{
  ℕ, suc, ◌+◌, ◌≤◌, ◌≡◌, sym, Bool, true, false, List, [], ◌∷◌, ◌++◌, length, length-append, arith,
}
use mathlib.Core.List.{append-nil}
use project_secure_chat.Base.Result.{ok}
use project_secure_chat.Buffer.Defs.{empty}
use project_secure_chat.Buffer.Append.{IsValid-empty, extend, extend-IsValid, append_text_lem}
use project_secure_chat.Buffer.Fields.{block_Gives}
use project_secure_chat.Crypto.OpenSsl.{OpenSsl}
use project_secure_chat.Opcode.Defs.{smsg_login, cmsg_login}
use project_secure_chat.Packet.Defs.{Packet}
use project_secure_chat.Timer.{init_login_interval}
use project_secure_chat.LockQueue.{add}
use project_secure_chat.Peer.State.{
  Peer, Config, login_step_1, hyb, set_encryption, set_next_encryption, set_session_status,
  queue_packet,
}
use project_secure_chat.Login.Run.{Send, packet_of, after_send, IsTransport}
use project_secure_chat.Login.Server
use project_secure_chat.Login.Client
use project_secure_chat.Login.Parts.{
  IsRandom, filled, filled-IsValid, append_filled, random_key_lem, nonce_lem, other_nonce_lem,
}

-- The packet of the client's answer.
abbrev pub answer : List ℕ → List ℕ → List ℕ → List ℕ → Packet
answer name key nonce own =
    packet_of cmsg_login (extend own (extend nonce (extend key (filled (name ++ 0 ∷ [])))))

module _ (o : OpenSsl) (law : IsRandom o) (be : Bool) (send : Send) where
  -- The server's greeting.
  pub start_login_lem :
      (cfg : Config) (known : List ℕ → Bool) (s : Peer)
      → s.opened ≡ true
      → s.has_this ≡ true
      → Server.start_login o cfg be known send s ≡ (
        ok tt,
        record s {
          status = login_step_1;
          next_enc = hyb;
          my_nonce = filled (o.random_bytes s.draws 32);
          draws = suc s.draws;
          send_queue = add (packet_of smsg_login (filled (o.random_bytes s.draws 32))) s.send_queue;
          keep_alive_timer = init_login_interval cfg.login_timeout s.keep_alive_timer;
        },
      )
  unfolding Server.start_login set_next_encryption set_session_status queue_packet
  start_login_lem cfg known s h k =
      let n = o.random_bytes s.draws 32 in
      rw (
        nonce_lem o law (set_next_encryption hyb (set_session_status login_step_1 s)),
        append_filled n empty IsValid-empty (omega arith) (omega (arith, law.count s.draws 32))
            (omega (arith, law.count s.draws 32)),
        h,
        k,
      )

  -- The client's answer to it.
  pub answer_nonce_lem :
      (nonce : List ℕ) (s : Peer)
      → IsTransport o send
      → s.opened ≡ true
      → HasKeys o s.my_priv_key s.other_pub_key
      → s.password ≡ []
      → s.server ≡ false
      → length s.username ≤ 16
      → length nonce ≡ 32
      → (n : ℕ × ℕ) × (raw : List ℕ) × (Client.answer_nonce o be send (filled nonce) s ≡ (
        ok tt,
        record s {
          status = login_step_1;
          enc = hyb;
          key = filled (o.random_bytes s.draws 32);
          other_nonce = filled nonce;
          my_nonce = filled (o.random_bytes (suc s.draws) 32);
          id_send = n.0;
          draws = n.1;
          sent =
              s.sent
              ++ answer s.username
                  (o.random_bytes s.draws 32)
                  nonce
                  (o.random_bytes (suc s.draws) 32)
                ∷ [];
          wire = s.wire ++ raw ∷ [];
        },
      ))
  unfolding Client.answer_nonce set_encryption set_session_status after_send
  answer_nonce_lem nonce s ship h keys bare k short len =
      let name = s.username ++ 0 ∷ [] in
      let size_name : length name ≡ length s.username + 1 = length-append s.username (0 ∷ []) in
      let key = o.random_bytes s.draws 32 in
      let own = o.random_bytes (suc s.draws) 32 in
      let c1 = law.count s.draws 32 in
      let c2 = law.count (suc s.draws) 32 in
      let b1 = filled name in
      let v1 = filled-IsValid name (omega arith) in
      let b2 = extend key b1 in
      let v2 = extend-IsValid key b1 v1 (omega arith) in
      let l2 = length-append name key in
      let b3 = extend nonce b2 in
      let v3 = extend-IsValid nonce b2 v2 (omega arith) in
      let l3 = length-append (name ++ key) nonce in
      let g =
        block_Gives 32 nonce [] (filled nonce) (filled-IsValid nonce (omega arith))
          (sym (append-nil nonce)) (sym len) in
      let s0 : Peer = record s {
        status = login_step_1;
        enc = hyb;
        key = filled key;
        draws = suc s.draws;
      } in
      let s3 : Peer = record s0 {
        other_nonce = filled nonce;
        my_nonce = filled own;
        draws = suc (suc s.draws);
      } in
      let (n, raw, sends) =
        ship.delivers (answer s.username key nonce own) s3 h (keys, bare)
          (omega (arith, c1, c2, size_name, l2, l3, length-append ((name ++ key) ++ nonce) own)) in
      (
        n,
        raw,
        rw (
          append_text_lem s.username empty IsValid-empty (omega arith),
          random_key_lem o law s.draws s.key,
          append_filled key b1 v1 (omega arith) (omega arith) (omega arith),
          g.gives,
          other_nonce_lem nonce s0 len,
          append_filled nonce b2 v2 (omega arith) (omega arith) (omega arith),
          nonce_lem o law (record s0 { other_nonce = filled nonce }),
          append_filled own b3 v3 (omega arith) (omega arith) (omega arith),
          sends,
          k,
        ),
      )
