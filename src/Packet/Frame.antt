-- ===== src/Packet/Frame.antt =====
-- Packet::Decapsulate: what the receiver makes of a frame.
use project_secure_chat.Base.{
  ℕ, zero, suc, ◌+◌, ◌%◌, ◌^◌, ◌≤◌, ◌<◌, ◌≡◌, refl, sym, ap, Bool, true, false, Option, List, ◌++◌,
  ◌==◌, ne→==, lt→ltb, le→ltb, if◌then◌else◌, take, length, length-append, arith,
}
use Prim.Native.Nat.add
use native.Mathlib.Nat.{add-zero}
use project_secure_chat.Base.Result.{Result, ok, err, out_of_bounds, ◌>>=◌}
use project_secure_chat.Buffer.Words.{w16, w32, encode, length-encode}
use project_secure_chat.Buffer.Defs.{ByteBuffer, size, empty, max_size, append_from, read}
use project_secure_chat.Buffer.Append.{IsValid, IsValid-empty, append_from_lem}
use project_secure_chat.Buffer.Read.{unread, advance, read_skip_lem, length-unread}
use project_secure_chat.Buffer.Text.{Gives}
use project_secure_chat.Buffer.Fields.{value_Gives}
use project_secure_chat.Packet.Defs.{Packet, new_packet, mode_plain, take_body, accept, decapsulate}
use project_secure_chat.Packet.Writing.{frame, seq_bytes}

-- A packet as it comes out of a frame.
abbrev pub received : ℕ → List ℕ → Packet
received opcode body = record {
  buffer = record { rpos = 0; wpos = length body; storage = body };
  opcode = opcode;
  encrypted = false;
  mode = mode_plain;
}

take_body_lem :
    (opcode len : ℕ) (body : List ℕ) (b : ByteBuffer)
    → IsValid b
    → unread b ≡ body
    → len < 2 ^ 16
    → len ≤ length body
    → take_body opcode len b ≡ ok (received opcode (take len body), advance len b)
unfolding take_body
take_body_lem opcode zero body b v e k h =
    ap (λ c. ok (new_packet opcode, c)) (λ i. record b { rpos = sym (add-zero b.rpos) i })
take_body_lem opcode (suc n) body b v e k h =
    let len = suc n in
    rw (
      e,
      lt→ltb 0 len (omega arith),
      append_from_lem body len empty IsValid-empty (omega arith) (omega arith) h (omega arith),
      read_skip_lem len b v (omega (arith, ap length e)),
      add.zero (length (take len body)),
    )

take_body_overread :
    (opcode len : ℕ) (body : List ℕ) (b : ByteBuffer)
    → unread b ≡ body
    → len < 2 ^ 16
    → length body < len
    → take_body opcode len b ≡ err out_of_bounds
unfolding take_body append_from
take_body_overread opcode len body b e k h =
    let sum : (0 + len) % 2 ^ 64 ≡ len = omega arith in
    rw (
      e,
      lt→ltb 0 len (omega arith),
      ne→== len 0 (omega arith),
      sum,
      lt→ltb 0 len (omega arith),
      le→ltb max_size len (omega arith),
      lt→ltb (length body) len h,
    )

-- What decapsulation does once the header is read.
finish : Bool → ℕ → ℕ → ℕ → ℕ → ℕ → ℕ → ByteBuffer → Result (Option Packet × ℕ)
finish check now seq_old opcode len timer seq b = do
  (p, b') ← take_body opcode len b
  ok (accept check now timer seq seq_old p)

seq_Gives :
    (be check : Bool) (seq : ℕ) (rest : List ℕ) (b : ByteBuffer)
    → seq < 2 ^ 32
    → IsValid b
    → unread b ≡ seq_bytes be check seq ++ rest
    → Gives (λ c. if check then read be w32 c else ok (0, c)) b (if check then seq else 0) rest
unfolding seq_bytes
seq_Gives be true seq rest b k v e =
    let r = value_Gives be w32 seq rest b k v e in
    record {
      after = r.after;
      gives = r.gives;
      valid = r.valid;
      left = r.left;
      contents = r.contents;
    }
seq_Gives be false seq rest b k v e = record {
  after = b;
  gives = refl;
  valid = v;
  left = e;
  contents = refl;
}

abbrev pub FitsHeader : ℕ → ℕ → ℕ → ℕ → Type 0
FitsHeader opcode len timer seq =
    (opcode < 2 ^ 16) × (len < 2 ^ 16) × (timer < 2 ^ 32) × (seq < 2 ^ 32)

decapsulate_header :
    (be check : Bool) (now seq_old opcode len timer seq : ℕ) (body : List ℕ) (b : ByteBuffer)
    → FitsHeader opcode len timer seq
    → IsValid b
    → unread b ≡ frame be check opcode len timer seq body
    → (c : ByteBuffer) × IsValid c
      × (unread c ≡ body)
      × (decapsulate be check now seq_old b
          ≡ finish check now seq_old opcode len timer (if check then seq else 0) c)
unfolding decapsulate frame finish
decapsulate_header be check now seq_old opcode len timer seq body b k v e =
    let r1 = value_Gives be w16 opcode _ b k.0 v e in
    let r2 = value_Gives be w16 len _ r1.after k.1 r1.valid r1.left in
    let r3 = value_Gives be w32 timer _ r2.after k.2 r2.valid r2.left in
    let r4 = seq_Gives be check seq body r3.after k.3 r3.valid r3.left in
    let full : (size b == 0) ≡ false = ne→== (size b) 0 (
      omega (
        arith,
        ap length e,
        length-append (encode be w16 opcode)
            (encode be w16 len ++ (encode be w32 timer ++ (seq_bytes be check seq ++ body))),
        length-encode be w16 opcode,
        length-unread b,
      )) in
    (r4.after, r4.valid, r4.left, rw (full, r1.gives, r2.gives, r3.gives, r4.gives))

-- A frame with a length that its body has: the packet has the opcode and that many bytes, and the
-- replay checks decide on it.
pub decapsulate_lem :
    (be check : Bool) (now seq_old opcode len timer seq : ℕ) (body : List ℕ) (b : ByteBuffer)
    → FitsHeader opcode len timer seq
    → IsValid b
    → unread b ≡ frame be check opcode len timer seq body
    → len ≤ length body
    → decapsulate be check now seq_old b
      ≡ ok (
          accept check now timer
            (if check then seq else 0)
            seq_old
            (received opcode (take len body)))
unfolding finish
decapsulate_lem be check now seq_old opcode len timer seq body b k v e h =
    let (c, w, u, eq) = decapsulate_header be check now seq_old opcode len timer seq body b k v e in
    rw (eq, take_body_lem opcode len body c w u k.1 h)

-- A frame that announces more bytes than it has makes the receiver copy from outside the frame,
-- since the copy comes before the bounds check.
pub decapsulate_overread :
    (be check : Bool) (now seq_old opcode len timer seq : ℕ) (body : List ℕ) (b : ByteBuffer)
    → FitsHeader opcode len timer seq
    → IsValid b
    → unread b ≡ frame be check opcode len timer seq body
    → length body < len
    → decapsulate be check now seq_old b ≡ err out_of_bounds
unfolding finish
decapsulate_overread be check now seq_old opcode len timer seq body b k v e h =
    let (c, w, u, eq) = decapsulate_header be check now seq_old opcode len timer seq body b k v e in
    rw (eq, take_body_overread opcode len body c u k.1 h)
