-- ===== src/Wire/Delivery.antt =====
-- src/shared/session/sessionbase.cpp, src/shared/networking/socket-base.cpp: a packet from one session to
-- the other, over the stream between the sockets.
use project_secure_chat.Base.{
  ℕ, suc, ◌+◌, ◌%◌, ◌^◌, ◌<◌, ◌≤◌, ◌≡◌, ap, ◌∙◌, Bool, true, false, Option, some, List, [], ◌∷◌,
  ◌++◌, length, arith,
}
use project_secure_chat.Base.Result.{ok}
use project_secure_chat.Buffer.Words.{w16, encode}
use project_secure_chat.Buffer.Defs.{size}
use project_secure_chat.Crypto.OpenSsl.{OpenSsl, IsCipher}
use project_secure_chat.Crypto.Aes.{good_key}
use project_secure_chat.Opcode.Defs.{num_msg_types}
use project_secure_chat.Packet.Defs.{Packet}
use project_secure_chat.Packet.Transfer.{InTime}
use project_secure_chat.Packet.Frame.{received}
use project_secure_chat.Peer.State.{Peer, aes256}
use project_secure_chat.Login.Run.{after_send}
use project_secure_chat.Wire.Socket.{send_packet_to_socket}
use project_secure_chat.Wire.Arrival.{arrival_lem}
use project_secure_chat.Wire.Stream.{Os, IsStream, recv_from_stream, stream_lem}

-- A packet that SendPacketToSocket sends, of which everything has come, with anything behind it:
-- RecvPacketFromSocket of the other side makes the same packet, opcode and contents, of what recv gives it,
-- and leaves what is behind. Both return. recv is assumed to give what has come, up to what is asked for;
-- both sockets are open, both sides are under AES-256 with the same key of 16 or 32 bytes, the opcode is one
-- of the table, the packet has at most 64000 bytes and comes in time, and its number fits 32 bits and is
-- not smaller than the last one that the receiver saw.
pub delivery_lem :
    (o : OpenSsl)
    → IsCipher o
    → (be : Bool) (dir : Option (List ℕ)) (now arrived : ℕ) (pkt : Packet) (s r : Peer) (os : Os)
      (t u : ℕ) (memory rest : List ℕ)
    → IsStream os
    → s.opened ≡ true
    → r.opened ≡ true
    → s.enc ≡ aes256
    → r.enc ≡ aes256
    → good_key s.key ≡ true
    → r.key.storage ≡ s.key.storage
    → pkt.opcode < num_msg_types
    → size pkt.buffer ≤ 64000
    → InTime now arrived
    → s.id_send < 2 ^ 32
    → r.id_receive ≤ s.id_send
    → (body : List ℕ) × (send_packet_to_socket o be now pkt s ≡ (
      ok tt,
      after_send pkt.opcode (record s {
        id_send = (s.id_send + 1) % 2 ^ 32;
        draws = suc (suc s.draws);
        sent = s.sent ++ pkt ∷ [];
        wire = s.wire ++ (encode false w16 (length body % 2 ^ 16) ++ body) ∷ [];
      }),
    ))
      × (recv_from_stream o be dir arrived os
            (t ∷ u ∷ [])
            memory
            (record {
              pending = (encode false w16 (length body % 2 ^ 16) ++ body) ++ rest;
              closed = false;
            })
            r
          ≡ (
            some (
              ok (some (received pkt.opcode pkt.buffer.storage)),
              record r { id_receive = s.id_send },
            ),
            record { pending = rest; closed = false },
          ))
delivery_lem o law be dir now arrived pkt s r os t u memory rest is so ro es er g k op small time
      num seen =
    let (body, sent, pos, len, got) =
      arrival_lem o law be dir now arrived pkt s r so ro es er g k op small time num seen in
    let whole : length body % 2 ^ 16 ≡ length body = omega arith in
    (
      body,
      sent,
      ap
            (λ n.
              recv_from_stream o be dir arrived os (t ∷ u ∷ []) memory
                (record { pending = (encode false w16 n ++ body) ++ rest; closed = false }) r)
            whole
          ∙ stream_lem o be dir arrived os t u memory r body rest is ro pos len
          ∙ ap (λ x. (some x, record { pending = rest; closed = false })) got,
    )
