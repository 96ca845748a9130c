-- ===== src/Wire/Arrival.antt =====
-- A packet on its way from one session's socket to the other's, after the keys are agreed upon.
use project_secure_chat.Base.{
  ℕ, suc, ◌+◌, ◌%◌, ◌^◌, ◌<◌, ◌≤◌, ◌≡◌, refl, ap, ◌∙◌, Bool, true, false, Option, some, List, [],
  ◌∷◌, ◌++◌, lt→ltb, le→ltb, lt→leb, ne→==, length, length-append, take, take_all, arith,
}
use project_secure_chat.Base.Result.{ok}
use project_secure_chat.Buffer.Words.{w16, w32, encode, length-encode}
use project_secure_chat.Buffer.Defs.{size, empty, append_from}
use project_secure_chat.Buffer.Append.{IsValid-empty, extend-IsValid, append_from_lem}
use project_secure_chat.Crypto.OpenSsl.{OpenSsl, IsCipher}
use project_secure_chat.Crypto.Aes.{good_key, aes_encrypt}
use project_secure_chat.Packet.Defs.{Packet, mode_aes, new_packet, incapsulate}
use project_secure_chat.Packet.Writing.{frame, seq_bytes, write_frame-Puts}
use project_secure_chat.Packet.Frame.{received, decapsulate_lem}
use project_secure_chat.Packet.Transfer.{InTime, accept_lem}
use project_secure_chat.Packet.Seal.{encrypt}
use project_secure_chat.Packet.Sealing.{holding, decrypt-encrypt}
use project_secure_chat.Opcode.Defs.{num_msg_types}
use project_secure_chat.Peer.State.{Peer, aes256, is_encrypted, is_symmetric}
use project_secure_chat.Login.Run.{after_send}
use project_secure_chat.Wire.Params.{seal_params, open_params}
use project_secure_chat.Wire.Socket.{send_packet_to_socket, recv_packet_from_socket}

pub length-frame :
    (be : Bool) (opcode len timer seq : ℕ) (body : List ℕ)
    → length (frame be true opcode len timer seq body) ≡ 12 + length body
unfolding frame seq_bytes
length-frame be opcode len timer seq body =
    let a = encode be w16 opcode in
    let b = encode be w16 len in
    let c = encode be w32 timer in
    let d = encode be w32 seq in
    omega (
      arith,
      length-append a (b ++ (c ++ (d ++ body))),
      length-append b (c ++ (d ++ body)),
      length-append c (d ++ body),
      length-append d body,
      length-encode be w16 opcode,
      length-encode be w16 len,
      length-encode be w32 timer,
      length-encode be w32 seq,
    )

-- What SendPacketToSocket gives to the socket is a length, from 1 to 65000, and as many bytes, and RecvPacketFromSocket
-- of the other side makes the same packet of them: opcode and contents. Both return; the sender counts
-- the packet and, on the server, then takes up the encryption that it prepared; the receiver keeps the
-- packet's number. It is assumed that both sockets are open, both sides are under AES-256 with the same key of
-- 16 or 32 bytes, the opcode is one of the table, the packet has at most 64000 bytes and comes in time,
-- and its number fits 32 bits and is not smaller than the last one that the receiver saw.
pub arrival_lem :
    (o : OpenSsl)
    → IsCipher o
    → (be : Bool) (dir : Option (List ℕ)) (now arrived : ℕ) (pkt : Packet) (s r : Peer)
    → s.opened ≡ true
    → r.opened ≡ true
    → s.enc ≡ aes256
    → r.enc ≡ aes256
    → good_key s.key ≡ true
    → r.key.storage ≡ s.key.storage
    → pkt.opcode < num_msg_types
    → size pkt.buffer ≤ 64000
    → InTime now arrived
    → s.id_send < 2 ^ 32
    → r.id_receive ≤ s.id_send
    → (body : List ℕ) × (send_packet_to_socket o be now pkt s ≡ (
      ok tt,
      after_send pkt.opcode (record s {
        id_send = (s.id_send + 1) % 2 ^ 32;
        draws = suc (suc s.draws);
        sent = s.sent ++ pkt ∷ [];
        wire = s.wire ++ (encode false w16 (length body % 2 ^ 16) ++ body) ∷ [];
      }),
    ))
      × (0 < length body)
      × (length body ≤ 65000)
      × (recv_packet_from_socket o be dir arrived (length body) body r ≡ (
        ok (some (received pkt.opcode pkt.buffer.storage)),
        record r { id_receive = s.id_send },
      ))
unfolding send_packet_to_socket recv_packet_from_socket incapsulate seal_params open_params
    is_encrypted is_symmetric
arrival_lem o law be dir now arrived pkt s r os or es er g k op small t num seen =
    let len = size pkt.buffer % 2 ^ 16 in
    let w = write_frame-Puts be true now pkt s.id_send empty IsValid-empty refl (omega arith) in
    let bytes = frame be true pkt.opcode len now s.id_send pkt.buffer.storage in
    let size_w : size w.after ≡ 12 + size pkt.buffer =
      ap length w.contents ∙ length-frame be pkt.opcode len now s.id_send pkt.buffer.storage in
    let p : Packet = record (new_packet 0) { buffer = w.after; mode = mode_aes } in
    let (c, sealed, some_c, bound, opens) =
      decrypt-encrypt o law be dir s.draws s.key p refl g (omega arith) (omega arith) in
    let q : Packet = record (new_packet 0) { buffer = holding c; mode = mode_aes } in
    let copied : append_from c (length c) empty ≡ ok (holding c) =
      append_from_lem c (length c) empty IsValid-empty (omega arith) some_c (omega arith)
        (omega arith)
      ∙ ap (λ bs. ok (holding bs)) (take_all (length c) c (omega arith)) in
    let b = holding w.after.storage in
    let v = extend-IsValid w.after.storage empty IsValid-empty (omega arith) in
    (
      c,
      rw (os, es, w.puts, lt→ltb 0 (size w.after) (omega arith), sealed),
      omega arith,
      omega arith,
      rw (
        or,
        le→ltb 65000 (length c) (omega arith),
        ne→== (length c) 0 (omega arith),
        copied,
        er,
        opens r.key q refl k refl,
        decapsulate_lem be true arrived r.id_receive pkt.opcode len now s.id_send pkt.buffer.storage
            b (omega arith, omega arith, omega arith, num) v w.contents (omega arith),
        accept_lem true arrived now s.id_send r.id_receive
            (received pkt.opcode (take len pkt.buffer.storage)) t seen,
        take_all len pkt.buffer.storage (omega arith),
        lt→leb num_msg_types pkt.opcode op,
      ),
    )

-- Under AES-256 with a key that has not 16 or 32 bytes, Encrypt fails and SendPacketToSocket sends the
-- frame in the clear, and returns as if it had been encrypted. The packet has at most 64000 bytes and
-- the socket is open.
pub clear_lem :
    (o : OpenSsl) (be : Bool) (now : ℕ) (pkt : Packet) (s : Peer)
    → s.opened ≡ true
    → s.enc ≡ aes256
    → good_key s.key ≡ false
    → size pkt.buffer ≤ 64000
    → (f : List ℕ) × (f
        ≡ frame be true pkt.opcode (size pkt.buffer) now s.id_send pkt.buffer.storage)
      × (send_packet_to_socket o be now pkt s ≡ (
        ok tt,
        after_send pkt.opcode (record s {
          id_send = (s.id_send + 1) % 2 ^ 32;
          draws = suc (suc s.draws);
          sent = s.sent ++ pkt ∷ [];
          wire = s.wire ++ (encode false w16 (length f % 2 ^ 16) ++ f) ∷ [];
        }),
      ))
unfolding send_packet_to_socket incapsulate seal_params is_encrypted is_symmetric encrypt
    aes_encrypt
clear_lem o be now pkt s os es g small =
    let w = write_frame-Puts be true now pkt s.id_send empty IsValid-empty refl (omega arith) in
    let whole : size pkt.buffer % 2 ^ 16 ≡ size pkt.buffer = omega arith in
    let size_w : size w.after ≡ 12 + size pkt.buffer =
      ap length w.contents
      ∙ length-frame be pkt.opcode (size pkt.buffer % 2 ^ 16) now s.id_send pkt.buffer.storage in
    (
      w.after.storage,
      w.contents ∙ ap (λ n. frame be true pkt.opcode n now s.id_send pkt.buffer.storage) whole,
      rw (os, es, w.puts, lt→ltb 0 (size w.after) (omega arith), g),
    )
