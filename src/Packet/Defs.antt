-- ===== src/Packet/Defs.antt =====
-- src/shared/networking/packet.h, packet.cpp: the class Packet, Incapsulate and Decapsulate.
-- The time of creation of a packet, which only GetTime reads, is not kept. The clock of a call is
-- its argument `now`, the value of uint32(time(NULL)).
use project_secure_chat.Base.{
  ℕ, ◌+◌, ◌%◌, ◌^◌, Bool, false, Option, none, some, ltb, ◌==◌, if◌then◌else◌, drop,
}
use project_secure_chat.Base.Result.{Result, ok, ◌>>=◌}
use project_secure_chat.Buffer.Words.{w16, w32}
use project_secure_chat.Buffer.Defs.{
  ByteBuffer, size, empty, clear, append_value, append_from, read, read_skip,
}

pub data PacketMode : Type 0 where
  mode_plain mode_aes mode_rsa mode_hyb : PacketMode

pub record Packet : Type 0 where
  pub buffer : ByteBuffer
  pub opcode : ℕ
  pub encrypted : Bool
  pub mode : PacketMode

-- Packet(opcode, res): what is reserved is no contents.
abbrev pub new_packet : ℕ → Packet
new_packet opcode = record { buffer = empty; opcode = opcode; encrypted = false; mode = mode_plain }

unfoldable pub initialize : ℕ → Packet → Packet
unfolding clear
initialize opcode p = record p { buffer = clear p.buffer; opcode = opcode }

-- OPCODE_SIZE and LENGTH_SIZE are two bytes each.
unfoldable pub get_size : Packet → ℕ
get_size p = (size p.buffer + 2 + 2) % 2 ^ 32

-- What Incapsulate writes: opcode, length, time, the number if `check`, and the contents if any.
unfoldable pub write_frame : Bool → Bool → ℕ → Packet → ℕ → ByteBuffer → Result ByteBuffer
write_frame be check now pkt seq b = do
  b1 ← append_value be w16 pkt.opcode b
  b2 ← append_value be w16 (size pkt.buffer % 2 ^ 16) b1
  b3 ← append_value be w32 now b2
  b4 ← if check then append_value be w32 seq b3 else ok b3
  if ltb 0 (size pkt.buffer) then append_from pkt.buffer.storage (size pkt.buffer) b4 else ok b4

-- seq++ on a uint32, if the packets are numbered.
abbrev pub next_seq : Bool → ℕ → ℕ
next_seq check seq = if check then (seq + 1) % 2 ^ 32 else seq

-- Incapsulate(pkt, seq, check_seq): the frame and the next number.
unfoldable pub incapsulate : Bool → Bool → ℕ → Packet → ℕ → Packet → Result (Packet × ℕ)
incapsulate be check now pkt seq this = do
  b ← write_frame be check now pkt seq this.buffer
  ok (record this { buffer = b }, next_seq check seq)

-- The body of the packet that is made from a frame: `len` bytes from the read cursor on are copied
-- first, and the cursor is moved behind them afterwards.
unfoldable pub take_body : ℕ → ℕ → ByteBuffer → Result (Packet × ByteBuffer)
take_body opcode len b =
    if ltb 0 len
    then (do
      body ← append_from (drop b.rpos b.storage) len empty
      b' ← read_skip len b
      let p = new_packet opcode
      ok (record p { buffer = body }, b'))
    else ok (new_packet opcode, b)

-- 172800 seconds are two days.
abbrev pub max_age : ℕ
max_age = 172800

-- The checks for replays: on the time, then on the number if `check`. The result is the packet, if
-- it is accepted, and the number kept for the next call.
unfoldable pub accept : Bool → ℕ → ℕ → ℕ → ℕ → Packet → Option Packet × ℕ
accept check now timer seq seq_old p =
    if ltb ((timer + max_age) % 2 ^ 32) now
    then (none, seq_old)
    else if check
    then (if ltb seq seq_old then (none, seq_old) else (some p, seq))
    else (some p, seq_old)

-- Decapsulate(seq_old, check_seq).
unfoldable pub decapsulate : Bool → Bool → ℕ → ℕ → ByteBuffer → Result (Option Packet × ℕ)
decapsulate be check now seq_old b = if size b == 0 then ok (none, seq_old) else (do
  (opcode, b1) ← read be w16 b
  (len, b2) ← read be w16 b1
  (timer, b3) ← read be w32 b2
  (seq, b4) ← if check then read be w32 b3 else ok (0, b3)
  (p, b5) ← take_body opcode len b4
  ok (accept check now timer seq seq_old p))
