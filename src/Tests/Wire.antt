-- ===== src/Tests/Wire.antt =====
-- Instances of the theorems on sealed packets and on the sockets.
use project_secure_chat.Base.{
  ℕ, ◌%◌, ◌^◌, ◌<◌, ◌≤◌, ◌≡◌, refl, true, false, none, some, List, [], ◌∷◌, ◌++◌, length, codes,
  replicate, arith,
}
use project_secure_chat.Base.Result.{ok}
use project_secure_chat.Buffer.Words.{w16, encode}
use project_secure_chat.Buffer.Defs.{ByteBuffer, empty}
use project_secure_chat.Crypto.Toy.{toy, toy-IsCipher}
use project_secure_chat.Packet.Defs.{Packet, new_packet, mode_aes}
use project_secure_chat.Packet.Writing.{frame}
use project_secure_chat.Packet.Frame.{received}
use project_secure_chat.Packet.Seal.{encrypt}
use project_secure_chat.Packet.Unseal.{decrypt}
use project_secure_chat.Packet.Sealing.{holding, decrypt-encrypt}
use project_secure_chat.Peer.State.{Peer, aes256, new_client, new_server}
use project_secure_chat.Login.Run.{after_send}
use project_secure_chat.Wire.Socket.{send_packet_to_socket, recv_packet_from_socket}
use project_secure_chat.Wire.Arrival.{arrival_lem, clear_lem}
use project_secure_chat.Wire.Delivery.{delivery_lem}
use project_secure_chat.Wire.Stream.{Os, IsStream, recv_from_stream, short_lem}
use Prim.Native.Nat.{min}

abbrev key32 : ByteBuffer
key32 = holding (replicate 32 7)

abbrev hello_packet : Packet
hello_packet = record (new_packet 4) { buffer = holding (codes "hi" ++ 0 ∷ []) }

abbrev sealable : Packet
sealable = record (new_packet 4) { buffer = holding (codes "hi" ++ 0 ∷ []); mode = mode_aes }

decrypt-encrypt_example :
    (c : List ℕ) × (encrypt toy true 0 key32 sealable
      ≡ ok (true, record sealable { buffer = holding c; encrypted = true }))
    × (0 < length c)
    × (length c ≤ 51)
    × ((key' : ByteBuffer) (q : Packet)
        → q.mode ≡ mode_aes
        → key'.storage ≡ replicate 32 7
        → q.buffer ≡ holding c
        → decrypt toy true none key' q
          ≡ ok (true, record q { buffer = holding (codes "hi" ++ 0 ∷ []); encrypted = false }))
decrypt-encrypt_example =
    decrypt-encrypt toy toy-IsCipher true none 0 key32 sealable refl refl (omega arith)
      (omega arith)

abbrev from : Peer
from = record (new_server 0 0) { enc = aes256; key = key32; id_send = 5 }

abbrev to : Peer
to = record new_client { opened = true; enc = aes256; key = key32; id_receive = 4 }

arrival_lem_example :
    (body : List ℕ) × (send_packet_to_socket toy true 100 hello_packet from ≡ (
      ok tt,
      after_send 4 (record from {
        id_send = 6;
        draws = 2;
        sent = hello_packet ∷ [];
        wire = (encode false w16 (length body % 2 ^ 16) ++ body) ∷ [];
      }),
    ))
    × (0 < length body)
    × (length body ≤ 65000)
    × (recv_packet_from_socket toy true none 101 (length body) body to
        ≡ (ok (some (received 4 (codes "hi" ++ 0 ∷ []))), record to { id_receive = 5 }))
unfolding new_server new_client
arrival_lem_example =
    arrival_lem toy toy-IsCipher true none 100 101 hello_packet from to refl refl refl refl refl
      refl (omega arith) (omega arith) (omega arith, omega arith) (omega arith) (omega arith)

abbrev keyless : Peer
keyless = record from { key = empty }

clear_lem_example :
    (f : List ℕ) × (f ≡ frame true true 4 3 100 5 (codes "hi" ++ 0 ∷ []))
    × (send_packet_to_socket toy true 100 hello_packet keyless ≡ (
      ok tt,
      after_send 4 (record keyless {
        id_send = 6;
        draws = 2;
        sent = hello_packet ∷ [];
        wire = (encode false w16 (length f % 2 ^ 16) ++ f) ∷ [];
      }),
    ))
unfolding new_server new_client
clear_lem_example = clear_lem toy true 100 hello_packet keyless refl refl refl (omega arith)

abbrev all_there : Os
all_there = record { recv = λ n here. min n (length here) }

all_there-IsStream : IsStream all_there
all_there-IsStream = record { enough = λ n here h. omega arith; short = λ n here h. omega arith }

delivery_lem_example :
    (body : List ℕ) × (send_packet_to_socket toy true 100 hello_packet from ≡ (
      ok tt,
      after_send 4 (record from {
        id_send = 6;
        draws = 2;
        sent = hello_packet ∷ [];
        wire = (encode false w16 (length body % 2 ^ 16) ++ body) ∷ [];
      }),
    ))
    × (recv_from_stream toy true none 101 all_there
          (8 ∷ 9 ∷ [])
          (replicate 8 7)
          (record {
            pending = (encode false w16 (length body % 2 ^ 16) ++ body) ++ 4 ∷ [];
            closed = false;
          })
          to
        ≡ (
          some (ok (some (received 4 (codes "hi" ++ 0 ∷ []))), record to { id_receive = 5 }),
          record { pending = 4 ∷ []; closed = false },
        ))
unfolding new_server new_client
delivery_lem_example =
    delivery_lem toy toy-IsCipher true none 100 101 hello_packet from to all_there 8 9
      (replicate 8 7) (4 ∷ []) all_there-IsStream refl refl refl refl refl refl (omega arith)
      (omega arith) (omega arith, omega arith) (omega arith) (omega arith)

short_lem_example :
    recv_from_stream toy true none 101 all_there
      (8 ∷ 9 ∷ [])
      (replicate 8 7)
      (record { pending = encode false w16 3 ++ (1 ∷ []); closed = false })
      to
    ≡ (
      some (recv_packet_from_socket toy true none 101 3 (1 ∷ 7 ∷ 7 ∷ []) to),
      record { pending = []; closed = false },
    )
unfolding new_client
short_lem_example =
    short_lem toy true none 101 all_there 8 9 (replicate 8 7) to 3 (1 ∷ []) all_there-IsStream refl
      (omega arith) (omega arith) (omega arith)
