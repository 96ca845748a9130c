-- ===== src/Packet/Sealing.antt =====
-- Decrypt behind Encrypt.
use project_secure_chat.Base.{
  ℕ, ◌+◌, ◌^◌, ◌<◌, ◌≤◌, ◌≡◌, refl, ap, ◌∙◌, Bool, true, false, Option, List, lt→ltb, length,
  take_all, arith,
}
use project_secure_chat.Base.Result.{ok}
use project_secure_chat.Buffer.Defs.{
  ByteBuffer, size, empty, clear, append_limit, append_from, append_buffer,
}
use project_secure_chat.Buffer.Append.{IsValid, IsValid-empty, extend, append_from_lem}
use project_secure_chat.Crypto.OpenSsl.{OpenSsl, IsCipher}
use project_secure_chat.Crypto.Aes.{good_key, aes_sealed, aes_decrypt_lem}
use project_secure_chat.Packet.Defs.{Packet, mode_aes}
use project_secure_chat.Packet.Seal.{encrypt}
use project_secure_chat.Packet.Unseal.{decrypt}

-- The buffer that a packet has when these bytes were appended to an empty one.
abbrev pub holding : List ℕ → ByteBuffer
holding bs = extend bs empty

pub append_holding :
    (b : ByteBuffer)
    → IsValid b
    → 0 < size b
    → size b < 2 ^ 61
    → append_buffer b empty ≡ ok (holding b.storage)
unfolding append_buffer
append_holding b v h k =
    let w = v.write_at_end in
    rw
      (
        lt→ltb 0 b.wpos (omega arith),
        append_from_lem b.storage b.wpos empty IsValid-empty (omega arith) (omega arith)
            (omega arith) (omega arith),
      )
      (ap (λ bs. ok (holding bs)) (take_all b.wpos b.storage (omega arith)))

-- Encrypt in the mode AES, with a key of 16 or 32 bytes, on a packet that is not empty and leaves room
-- for the vector and the padding, returns 0; and Decrypt of the result with the same key returns 0 too and
-- gives back the contents. The ciphertext has at most 48 bytes more than they.
pub decrypt-encrypt :
    (o : OpenSsl)
    → IsCipher o
    → (be : Bool) (dir : Option (List ℕ)) (draw : ℕ) (key : ByteBuffer) (p : Packet)
    → p.mode ≡ mode_aes
    → good_key key ≡ true
    → 0 < size p.buffer
    → size p.buffer + 64 < append_limit
    → (c : List ℕ) × (encrypt o be draw key p
        ≡ ok (true, record p { buffer = holding c; encrypted = true }))
      × (0 < length c)
      × (length c ≤ size p.buffer + 48)
      × ((key' : ByteBuffer) (q : Packet)
          → q.mode ≡ mode_aes
          → key'.storage ≡ key.storage
          → q.buffer ≡ holding c
          → decrypt o be dir key' q
            ≡ ok (true, record q { buffer = holding p.buffer.storage; encrypted = false }))
unfolding encrypt decrypt clear
decrypt-encrypt o law be dir draw key p m g some_p room =
    let (c, t, e, f, same, vt, rt, some_c, bound, vc) =
      aes_sealed o law draw key p.buffer g some_p room in
    let copied : append_from c.storage (size c) empty ≡ ok (holding c.storage) =
      append_from_lem c.storage (size c) empty IsValid-empty (omega arith) some_c (omega arith)
        (omega arith)
      ∙ ap (λ bs. ok (holding bs)) (take_all (size c) c.storage (omega arith)) in
    let size_t = ap length same in
    let back : append_buffer t empty ≡ ok (holding p.buffer.storage) =
      append_holding t vt (omega arith) (omega arith) ∙ ap (λ bs. ok (holding bs)) same in
    (
      c.storage,
      rw (m, e, lt→ltb 0 (size c) some_c, copied),
      some_c,
      bound,
      λ key' q n k b.
          rw (n, b, aes_decrypt_lem o key' key (holding c.storage) c empty k refl, f, back),
    )
