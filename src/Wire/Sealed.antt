-- ===== src/Wire/Sealed.antt =====
-- src/shared/session/sessionbase.cpp: SendPacketToSocket of a session that can encrypt.
use project_secure_chat.Base.{
  ℕ, suc, ◌+◌, ◌%◌, ◌^◌, ◌≤◌, ◌≡◌, refl, ap, ◌∙◌, Bool, true, false, none, List, [], ◌∷◌, ◌++◌,
  lt→ltb, length, length-append, arith,
}
use project_secure_chat.Base.Result.{ok}
use project_secure_chat.Buffer.Words.{w8, w16, w32, encode, length-encode}
use project_secure_chat.Buffer.Defs.{size, empty}
use project_secure_chat.Buffer.Append.{IsValid-empty, extend, append_text_lem, append_value_lem}
use project_secure_chat.Crypto.OpenSsl.{OpenSsl, IsCipher, IsRsa}
use project_secure_chat.Packet.Defs.{Packet, mode_aes, mode_hyb, new_packet, incapsulate}
use project_secure_chat.Packet.Writing.{frame, seq_bytes, write_frame-Puts}
use project_secure_chat.Packet.Sealing.{decrypt-encrypt}
use project_secure_chat.Peer.State.{
  Peer, Encryption, unspec, plain, aes128, aes256, rsa, hyb, is_encrypted, is_symmetric,
  have_password,
}
use project_secure_chat.Login.Parts.{IsRandom}
use project_secure_chat.Login.Run.{after_send, SealsAll, IsTransport, ReadyUnder}
use project_secure_chat.Wire.Params.{seal_params}
use project_secure_chat.Wire.Hybrid.{HasKeys, key_params-IsValid, hybrid_lem}
use project_secure_chat.Wire.Arrival.{length-frame}
use project_secure_chat.Wire.Socket.{send_packet_to_socket}

-- The program's SendPacketToSocket is what the handlers need it to be.
pub send-SealsAll :
    (o : OpenSsl) → IsCipher o → (be : Bool) (now : ℕ) → SealsAll (send_packet_to_socket o be now)
unfolding send_packet_to_socket incapsulate seal_params is_encrypted is_symmetric
send-SealsAll o law be now = record {
  delivers = λ pkt s os es g small.
      let w = write_frame-Puts be true now pkt s.id_send empty IsValid-empty refl (omega arith) in
      let size_w : size w.after ≡ 12 + size pkt.buffer =
        ap length w.contents
        ∙ length-frame be pkt.opcode (size pkt.buffer % 2 ^ 16) now s.id_send pkt.buffer.storage in
      let p : Packet = record (new_packet 0) { buffer = w.after; mode = mode_aes } in
      let (c, sealed, some_c, bound, opens) =
        decrypt-encrypt o law be none s.draws s.key p refl g (omega arith) (omega arith) in
      (
        ((s.id_send + 1) % 2 ^ 32, suc (suc s.draws)),
        encode false w16 (length c % 2 ^ 16) ++ c,
        rw (os, es, w.puts, lt→ltb 0 (size w.after) (omega arith), sealed),
      );
}

length-plain_frame :
    (be : Bool) (opcode len timer seq : ℕ) (body : List ℕ)
    → length (frame be false opcode len timer seq body) ≡ 8 + length body
unfolding frame seq_bytes
length-plain_frame be opcode len timer seq body =
    let a = encode be w16 opcode in
    let b = encode be w16 len in
    let c = encode be w32 timer in
    omega (
      arith,
      length-append a (b ++ (c ++ body)),
      length-append b (c ++ body),
      length-append c body,
      length-encode be w16 opcode,
      length-encode be w16 len,
      length-encode be w32 timer,
    )

module _ (o : OpenSsl) (law : IsRandom o) (cipher : IsCipher o) (keyed : IsRsa o) (be : Bool)
    (now : ℕ) where
  abbrev Delivers : Packet → Peer → Type 0
  Delivers p s =
      (n : ℕ × ℕ) × (raw : List ℕ) × (send_packet_to_socket o be now p s ≡ (
        ok tt,
        after_send p.opcode (record s {
          id_send = n.0;
          draws = n.1;
          sent = s.sent ++ p ∷ [];
          wire = s.wire ++ raw ∷ [];
        }),
      ))

  sends_plain :
      (p : Packet) (s : Peer)
      → s.opened ≡ true
      → s.enc ≡ plain
      → size p.buffer ≤ 64000
      → Delivers p s
  unfolding send_packet_to_socket incapsulate is_encrypted is_symmetric
  sends_plain p s os es small =
      let w = write_frame-Puts be false now p s.id_send empty IsValid-empty refl (omega arith) in
      (
        (s.id_send, s.draws),
        encode false w16 (size w.after % 2 ^ 16) ++ w.after.storage,
        rw (os, es, w.puts),
      )

  sends_hybrid :
      (p : Packet) (s : Peer)
      → s.opened ≡ true
      → s.enc ≡ hyb
      → HasKeys o s.my_priv_key s.other_pub_key
      → s.password ≡ []
      → size p.buffer ≤ 64000
      → Delivers p s
  unfolding send_packet_to_socket incapsulate is_encrypted is_symmetric seal_params have_password
  sends_hybrid p s os es keys bare small =
      let w = write_frame-Puts be false now p s.id_send empty IsValid-empty refl (omega arith) in
      let size_w : size w.after ≡ 8 + size p.buffer =
        ap length w.contents
        ∙ length-plain_frame be p.opcode (size p.buffer % 2 ^ 16) now s.id_send p.buffer.storage in
      let mine = s.my_priv_key in
      let other = s.other_pub_key in
      let (v1, v2, v3) = key_params-IsValid be mine other keys.mine_short keys.other_short in
      let l1 = length-append other (0 ∷ []) in
      let l2 = length-append (other ++ 0 ∷ []) (mine ++ 0 ∷ []) in
      let l3 = length-append mine (0 ∷ []) in
      let f : Packet = record (new_packet 0) { buffer = w.after; mode = mode_hyb } in
      let (done, q, sealed) =
        hybrid_lem o law cipher keyed be mine other s.draws
          (record (new_packet 0) { buffer = w.after }) keys w.valid (omega arith) (omega arith) in
      (
        (s.id_send, suc (suc s.draws)),
        encode false w16 (size q.buffer % 2 ^ 16) ++ q.buffer.storage,
        rw (
          os,
          es,
          w.puts,
          lt→ltb 0 (size w.after) (omega arith),
          append_text_lem other empty IsValid-empty (omega (arith, keys.other_short)),
          append_text_lem mine (extend (other ++ 0 ∷ []) empty) v1
              (omega (arith, keys.mine_short, keys.other_short)),
          bare,
          append_value_lem be w8 0 (extend (mine ++ 0 ∷ []) (extend (other ++ 0 ∷ []) empty)) v2
              (omega (arith, keys.mine_short, keys.other_short)),
          sealed,
        ),
      )

  ready_sends :
      (e : Encryption) (p : Packet) (s : Peer)
      → s.enc ≡ e
      → s.opened ≡ true
      → ReadyUnder o e s
      → size p.buffer ≤ 64000
      → Delivers p s
  ready_sends plain p s e os r small = sends_plain p s os e small
  ready_sends aes256 p s e os r small = (send-SealsAll o cipher be now).delivers p s os e r small
  ready_sends hyb p s e os (keys, bare) small = sends_hybrid p s os e keys bare small
  ready_sends unspec p s e os r small = absurd r
  ready_sends aes128 p s e os r small = absurd r
  ready_sends rsa p s e os r small = absurd r

  -- The program's SendPacketToSocket is what the handlers of the login need it to be.
  pub send-IsTransport : IsTransport o (send_packet_to_socket o be now)
  send-IsTransport = record { delivers = λ p s h r small. ready_sends s.enc p s refl h r small }
