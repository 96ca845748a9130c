-- ===== src/Tests/Packet.antt =====
-- Instances of the theorems on packets.
use project_secure_chat.Base.{List, ◌≡◌, refl, [], ◌∷◌, some, true, false, arith}
use project_secure_chat.Base.Result.{ok}
use project_secure_chat.Buffer.Words.{decode}
use project_secure_chat.Buffer.Defs.{ByteBuffer, read, read_at, bytes_at, read_skip, append_from}
use project_secure_chat.Buffer.Append.{IsValid}
use project_secure_chat.Packet.Defs.{Packet, decapsulate, take_body, accept}
use project_secure_chat.Packet.Frame.{received}
use project_secure_chat.Packet.Transfer.{Sending, transfer, transfers, transfer_lem, transfers_lem}

abbrev hello : Packet
hello = received 5 (104 ∷ 105 ∷ [])

abbrev bye : Packet
bye = received 12 []

transfer_lem_example : transfer true true 1000 1005 7 7 hello ≡ ok (some hello, 8, 7)
transfer_lem_example =
    transfer_lem true true 1000 1005 7 7 hello (omega arith) (omega arith) (omega arith)
      (omega arith) (omega arith)

abbrev series : List Sending
series =
    record { packet = hello; sent = 1000; arrived = 1005 }
    ∷ record { packet = bye; sent = 1010; arrived = 1012 }
    ∷ []

transfers_lem_example : transfers false true 7 3 series ≡ ok (some hello ∷ some bye ∷ [])
transfers_lem_example =
    transfers_lem false true 7 3 series (omega arith) (omega arith) (omega arith)

-- Opcode 5, length 2, time 1000, number 7, two bytes.
abbrev frame_bytes : ByteBuffer
frame_bytes = record {
  rpos = 0;
  wpos = 14;
  storage = 5 ∷ 0 ∷ 2 ∷ 0 ∷ 232 ∷ 3 ∷ 0 ∷ 0 ∷ 7 ∷ 0 ∷ 0 ∷ 0 ∷ 104 ∷ 105 ∷ [];
}

frame_accepted : decapsulate false true 1005 7 frame_bytes ≡ ok (some hello, 7)
unfolding decapsulate take_body accept read read_at bytes_at read_skip append_from decode
frame_accepted = refl

-- The same, with one byte fewer than announced.
abbrev short_bytes : ByteBuffer
short_bytes = record {
  rpos = 0;
  wpos = 13;
  storage = 5 ∷ 0 ∷ 2 ∷ 0 ∷ 232 ∷ 3 ∷ 0 ∷ 0 ∷ 7 ∷ 0 ∷ 0 ∷ 0 ∷ 104 ∷ [];
}

short-IsValid : IsValid short_bytes
short-IsValid = record { read_inside = omega arith; write_at_end = refl; fits = omega arith }
