-- ===== src/Packet/Writing.antt =====
-- Packet::Incapsulate: the bytes that it writes.
use project_secure_chat.Base.{
  ℕ, ◌+◌, ◌%◌, ◌^◌, ◌≤◌, ◌<◌, ◌≡◌, refl, sym, ap, ◌∙◌, inl, inr, Bool, true, false, List, [], ◌∷◌,
  ◌++◌, ltb, ltb→lt, ltb→le, if◌then◌else◌, length, length-append, take_all, Bool-cases, arith,
}
use mathlib.Core.List.{append_assoc, append-nil}
use project_secure_chat.Base.Result.{Result, ok, ◌>>=◌}
use project_secure_chat.Buffer.Words.{w16, w32, encode, length-encode}
use project_secure_chat.Buffer.Defs.{ByteBuffer, size, append_limit, append_value, append_from}
use project_secure_chat.Buffer.Append.{
  Puts, value_Puts, IsValid, extend, extend-IsValid, append_from_lem,
}
use project_secure_chat.Packet.Defs.{Packet, write_frame}

-- The body is copied only if there is one.
body_Puts :
    (p b : ByteBuffer)
    → IsValid b
    → size b < append_limit
    → size p < 2 ^ 61
    → Puts (λ c. if ltb 0 (size p) then append_from p.storage (size p) c else ok c) b p.storage
body_Puts p b v h k = elim (Bool-cases (ltb 0 (size p))) [
  | inl e ↦ record {
    after = extend p.storage b;
    puts = rw e (
        append_from_lem p.storage (size p) b v h (ltb→lt 0 (size p) e) (omega arith) k
        ∙ ap (λ t. ok (extend t b)) (take_all (size p) p.storage (omega arith)));
    valid = extend-IsValid p.storage b v (omega arith);
    contents = refl;
    cursor = refl;
  }
  | inr e ↦ record {
    after = b;
    puts = rw e;
    valid = v;
    contents =
        sym (append-nil b.storage)
        ∙ ap (◌++◌ b.storage) (sym (nothing p.storage (ltb→le 0 (size p) e)));
    cursor = refl;
  }
]
  where
    nothing : (xs : List ℕ) → length xs ≤ 0 → xs ≡ []
    nothing [] l = refl
    nothing (x ∷ xs) l = absurd (omega arith)

-- The number in a frame, if the frames of the session are numbered.
unfoldable pub seq_bytes : Bool → Bool → ℕ → List ℕ
seq_bytes be true seq = encode be w32 seq
seq_bytes be false seq = []

seq_Puts :
    (be check : Bool) (seq : ℕ) (b : ByteBuffer)
    → IsValid b
    → size b < append_limit
    → Puts (λ c. if check then append_value be w32 seq c else ok c) b (seq_bytes be check seq)
unfolding seq_bytes
seq_Puts be true seq b v h =
    let r = value_Puts be w32 seq b v h in
    record {
      after = r.after;
      puts = r.puts;
      valid = r.valid;
      contents = r.contents;
      cursor = r.cursor;
    }
seq_Puts be false seq b v h = record {
  after = b;
  puts = refl;
  valid = v;
  contents = sym (append-nil b.storage);
  cursor = refl;
}

-- One write after another.
bind_Puts :
    (m k : ByteBuffer → Result ByteBuffer) (b : ByteBuffer) (xs ys : List ℕ)
    → Puts m b xs
    → ((c : ByteBuffer) → IsValid c → size c ≡ size b + length xs → Puts k c ys)
    → Puts (λ c. m c >>= k) b (xs ++ ys)
bind_Puts m k b xs ys p next =
    let q = next p.after p.valid (ap length p.contents ∙ length-append b.storage xs) in
    record {
      after = q.after;
      puts = rw p.puts q.puts;
      valid = q.valid;
      contents = q.contents ∙ ap (λ zs. zs ++ ys) p.contents ∙ append_assoc b.storage xs ys;
      cursor = q.cursor ∙ p.cursor;
    }

-- The bytes of a frame: the header, then the body.
unfoldable pub frame : Bool → Bool → ℕ → ℕ → ℕ → ℕ → List ℕ → List ℕ
unfolding seq_bytes
frame be check opcode len timer seq body =
    encode be w16 opcode
    ++ (encode be w16 len ++ (encode be w32 timer ++ (seq_bytes be check seq ++ body)))

pub length-seq_bytes : (be check : Bool) (seq : ℕ) → length (seq_bytes be check seq) ≤ 4
unfolding seq_bytes
length-seq_bytes be true seq = omega (arith, length-encode be w32 seq)
length-seq_bytes be false seq = omega arith

pub write_frame-Puts :
    (be check : Bool) (now : ℕ) (pkt : Packet) (seq : ℕ) (b : ByteBuffer)
    → IsValid b
    → size b ≡ 0
    → size pkt.buffer < 2 ^ 61
    → Puts
        (write_frame be check now pkt seq)
        b
        (frame be check pkt.opcode (size pkt.buffer % 2 ^ 16) now seq pkt.buffer.storage)
unfolding write_frame frame
write_frame-Puts be check now pkt seq b v z h =
    let len = size pkt.buffer % 2 ^ 16 in
    bind_Puts (append_value be w16 pkt.opcode) _ b _ _
      (value_Puts be w16 pkt.opcode b v (omega arith))
      λ b1 v1 n1.
        bind_Puts (append_value be w16 len) _ b1 _ _
          (value_Puts be w16 len b1 v1 (omega (arith, length-encode be w16 pkt.opcode)))
          λ b2 v2 n2.
            bind_Puts (append_value be w32 now) _ b2 _ _
              (value_Puts be w32 now b2 v2
                (omega (arith, length-encode be w16 pkt.opcode, length-encode be w16 len)))
              λ b3 v3 n3.
                bind_Puts (λ c. if check then append_value be w32 seq c else ok c) _ b3 _ _
                  (seq_Puts be check seq b3 v3 (
                    omega (
                      arith,
                      length-encode be w16 pkt.opcode,
                      length-encode be w16 len,
                      length-encode be w32 now,
                    )))
                  λ b4 v4 n4.
                    body_Puts pkt.buffer b4 v4
                      (omega (
                        arith,
                        length-encode be w16 pkt.opcode,
                        length-encode be w16 len,
                        length-encode be w32 now,
                        length-seq_bytes be check seq,
                      ))
                      h
