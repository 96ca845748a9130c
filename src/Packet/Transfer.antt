-- ===== src/Packet/Transfer.antt =====
-- A packet on its way: Incapsulate at the sender, Decapsulate at the receiver.
use project_secure_chat.Base.{
  ℕ, ◌+◌, ◌%◌, ◌^◌, ◌≤◌, ◌<◌, ◌≡◌, refl, ap, ◌∙◌, Bool, true, false, Option, some, List, [], ◌∷◌,
  le→ltb, if◌then◌else◌, take, drop, length, take_all, map, arith,
}
use project_secure_chat.Base.Result.{Result, ok, ◌>>=◌}
use project_secure_chat.Buffer.Defs.{size, empty}
use project_secure_chat.Buffer.Append.{IsValid-empty}
use project_secure_chat.Packet.Defs.{
  Packet, new_packet, incapsulate, decapsulate, accept, max_age, next_seq,
}
use project_secure_chat.Packet.Frame.{received, decapsulate_lem}
use project_secure_chat.Packet.Writing.{frame, write_frame-Puts}
use project_secure_chat.Buffer.Read.{unread}

-- What the receiver gets of one packet, and the numbers that both keep: the sender's next, and the
-- one that the receiver compares with.
abbrev pub Delivery : Type 0
Delivery = Option Packet × ℕ × ℕ

unfoldable pub transfer : Bool → Bool → ℕ → ℕ → ℕ → ℕ → Packet → Result Delivery
transfer be check sent arrived seq seq_old pkt = do
  (f, seq') ← incapsulate be check sent pkt seq (new_packet 0)
  (o, seq_old') ← decapsulate be check arrived seq_old f.buffer
  ok (o, seq', seq_old')

-- The clocks of both sides: the packet is at most two days old, and no sum wraps.
abbrev pub InTime : ℕ → ℕ → Type 0
InTime sent arrived = (sent + max_age < 2 ^ 32) × (arrived ≤ sent + max_age)

pub accept_lem :
    (check : Bool) (now timer seq seq_old : ℕ) (p : Packet)
    → InTime timer now
    → seq_old ≤ seq
    → accept check now timer (if check then seq else 0) seq_old p
      ≡ (some p, if check then seq else seq_old)
unfolding accept
accept_lem true now timer seq seq_old p t h =
    let sum : (timer + max_age) % 2 ^ 32 ≡ timer + max_age = omega arith in
    rw (sum, le→ltb (timer + max_age) now t.1, le→ltb seq seq_old h)
accept_lem false now timer seq seq_old p t h =
    let sum : (timer + max_age) % 2 ^ 32 ≡ timer + max_age = omega arith in
    rw (sum, le→ltb (timer + max_age) now t.1)

-- A packet arrives with its opcode and the first n mod 65536 of its n bytes, for the length is sent
-- as 16 bits: whole, if it is shorter than 65536. Its number becomes the receiver's, where packets
-- are numbered. It is assumed that the opcode, the time and the number fit their fields, the packet
-- comes in time, and the receiver has seen no larger number.
pub transfer_lem :
    (be check : Bool) (sent arrived seq seq_old : ℕ) (pkt : Packet)
    → pkt.opcode < 2 ^ 16
    → size pkt.buffer < 2 ^ 61
    → InTime sent arrived
    → seq < 2 ^ 32
    → seq_old ≤ seq
    → transfer be check sent arrived seq seq_old pkt
      ≡ ok (
        some (received pkt.opcode (take (size pkt.buffer % 2 ^ 16) pkt.buffer.storage)),
        next_seq check seq,
        if check then seq else seq_old,
      )
unfolding transfer incapsulate
transfer_lem be check sent arrived seq seq_old pkt ko ks t kq h =
    let len = size pkt.buffer % 2 ^ 16 in
    let w = write_frame-Puts be check sent pkt seq empty IsValid-empty refl ks in
    let start : unread w.after ≡ frame be check pkt.opcode len sent seq pkt.buffer.storage =
      ap (λ n. drop n w.after.storage) w.cursor ∙ w.contents in
    rw (
      w.puts,
      decapsulate_lem be check arrived seq_old pkt.opcode len sent seq pkt.buffer.storage w.after
          (ko, omega arith, omega arith, kq) w.valid start (omega arith),
      accept_lem check arrived sent seq seq_old (received pkt.opcode (take len pkt.buffer.storage))
          t h,
    )

-- A packet, and when it is sent and arrives.
pub record Sending : Type 0 where
  pub packet : Packet
  pub sent : ℕ
  pub arrived : ℕ

-- Packets sent one after another over a connection.
unfoldable pub transfers : Bool → Bool → ℕ → ℕ → List Sending → Result (List (Option Packet))
transfers be check seq seq_old [] = ok []
transfers be check seq seq_old (d ∷ ds) = do
  (o, seq', seq_old') ← transfer be check d.sent d.arrived seq seq_old d.packet
  os ← transfers be check seq' seq_old' ds
  ok (o ∷ os)

abbrev pub Sendable : List Sending → Type 0
Sendable [] = Unit {0}
Sendable (d ∷ ds) =
    (d.packet.opcode < 2 ^ 16)
    × (size d.packet.buffer < 2 ^ 16)
    × InTime d.sent d.arrived
    × Sendable ds

abbrev pub as_received : Sending → Option Packet
as_received d = some (received d.packet.opcode d.packet.buffer.storage)

-- What Incapsulate makes of each packet of a series, Decapsulate makes the packet of again, whole and in
-- order, if each is shorter than 65536 bytes and comes
-- in time, the numbers do not wrap during the series and the receiver starts with no larger one. The socket's
-- own limit for a frame is not part of this.
pub transfers_lem :
    (be check : Bool) (seq seq_old : ℕ) (ds : List Sending)
    → Sendable ds
    → seq + length ds < 2 ^ 32
    → seq_old ≤ seq
    → transfers be check seq seq_old ds ≡ ok (map as_received ds)
unfolding transfers
transfers_lem be check seq seq_old [] k q h = refl
transfers_lem be check seq seq_old (d ∷ ds) (op, small, t, k) q h =
    let p = d.packet in
    let whole : take (size p.buffer % 2 ^ 16) p.buffer.storage ≡ p.buffer.storage =
      take_all _ p.buffer.storage (omega arith) in
    rw (
      transfer_lem be check d.sent d.arrived seq seq_old p op (omega arith) t (omega arith) h,
      whole,
      transfers_lem be check (next_seq check seq) (if check then seq else seq_old) ds k
          (ground arith) (ground arith),
    )
