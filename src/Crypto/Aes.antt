-- ===== src/Crypto/Aes.antt =====
-- src/shared/crypto/crypto.cpp: AesEncrypt and AesDecrypt. The Boolean of a result says whether the
-- function returned 0.
use project_secure_chat.Base.{
  ℕ, ◌+◌, ◌%◌, ◌^◌, ◌≤◌, ◌<◌, ◌≡◌, refl, sym, ap, ◌∙◌, Bool, true, false, not, ◌||◌, List, [], ◌∷◌,
  ◌++◌, ltb, lt→ltb, le→ltb, ◌==◌, ==_iff, ne→==, if◌then◌else◌, length, length-append, take, drop,
  take-append_length, drop-append_length, arith,
}
use mathlib.Core.List.{append_assoc, append-nil}
use project_secure_chat.Base.Result.{Result, ok, out_of_bounds, ◌>>=◌, ◌>>◌, throw_if}
use project_secure_chat.Buffer.Defs.{ByteBuffer, size, empty, append_limit, append_bytes}
use project_secure_chat.Buffer.Append.{
  IsValid, IsValid-empty, extend, extend-IsValid, append_bytes_lem,
}
use project_secure_chat.Crypto.OpenSsl.{OpenSsl, IsCipher, Ret, one, zero_ret, is_negative}

abbrev pub block_size : ℕ
block_size = 16

abbrev pub good_key : ByteBuffer → Bool
good_key key = size key == 16 || size key == 32

-- if (len) text.append(buffer, len);
unfoldable pub append_some : List ℕ → ByteBuffer → Result ByteBuffer
append_some bs b = if ltb 0 (length bs) then append_bytes bs b else ok b

last_call : Ret × List ℕ → ByteBuffer → Result (Bool × ByteBuffer)
last_call final text =
    if is_negative final.0
    then ok (false, text)
    else (do text' ← append_some final.1 text; ok (true, text'))

-- The two calls of the cipher, each with its test and its output.
unfoldable pub two_calls : Ret × List ℕ → Ret × List ℕ → ByteBuffer → Result (Bool × ByteBuffer)
unfolding last_call
two_calls update final text =
    if is_negative update.0
    then ok (false, text)
    else (do text1 ← append_some update.1 text; last_call final text1)

-- AesEncrypt(key, plaintext, ciphertext): the initial vector is random and goes first.
unfoldable pub aes_encrypt :
    OpenSsl → ℕ → ByteBuffer → ByteBuffer → ByteBuffer → Result (Bool × ByteBuffer)
aes_encrypt o draw key plain cipher =
    if not (good_key key)
    then ok (false, cipher)
    else if size plain == 0
    then ok (false, cipher)
    else (do
      let iv = o.random_bytes draw block_size
      cipher1 ← append_bytes iv cipher
      two_calls (o.encrypt_update key.storage iv plain.storage)
          (o.encrypt_final key.storage iv plain.storage) cipher1)

-- AesDecrypt(key, ciphertext, plaintext). The vector is copied from the ciphertext with no test
-- that it is there.
unfoldable pub aes_decrypt :
    OpenSsl → ByteBuffer → ByteBuffer → ByteBuffer → Result (Bool × ByteBuffer)
aes_decrypt o key cipher plain =
    if not (good_key key)
    then ok (false, plain)
    else if not (size cipher % block_size == 0)
    then ok (false, plain)
    else (do
      throw_if (ltb (size cipher) block_size) out_of_bounds
      let iv = take block_size cipher.storage
      let body = drop block_size cipher.storage
      two_calls (o.decrypt_update key.storage iv body) (o.decrypt_final key.storage iv body) plain)

append_some_lem :
    (bs : List ℕ) (b : ByteBuffer)
    → IsValid b
    → size b < append_limit
    → length bs < 2 ^ 61
    → (b' : ByteBuffer) × (append_some bs b ≡ ok b')
      × IsValid b'
      × (b'.storage ≡ b.storage ++ bs)
      × (b'.rpos ≡ b.rpos)
unfolding append_some
append_some_lem [] b v h k = (b, refl, v, sym (append-nil b.storage), refl)
append_some_lem (x ∷ xs) b v h k =
    let bs = x ∷ xs in
    (
      extend bs b,
      rw (lt→ltb 0 (length bs) (omega arith)) (append_bytes_lem bs b v h (omega arith) k),
      extend-IsValid bs b v (omega arith),
      refl,
      refl,
    )

two_calls_lem :
    (update final : Ret × List ℕ) (b : ByteBuffer)
    → is_negative update.0 ≡ false
    → is_negative final.0 ≡ false
    → IsValid b
    → size b + length update.1 < append_limit
    → length final.1 < 2 ^ 61
    → (b' : ByteBuffer) × (two_calls update final b ≡ ok (true, b'))
      × IsValid b'
      × (b'.storage ≡ b.storage ++ (update.1 ++ final.1))
      × (b'.rpos ≡ b.rpos)
unfolding two_calls
two_calls_lem update final b p q v h k =
    let (b1, e1, v1, s1, r1) = append_some_lem update.1 b v (omega arith) (omega arith) in
    let (b2, e2, v2, s2, r2) =
      append_some_lem final.1 b1 v1 (omega (arith, ap length s1, length-append b.storage update.1))
        k in
    (
      b2,
      rw (p, e1, q, e2),
      v2,
      s2 ∙ ap (λ t. t ++ final.1) s1 ∙ append_assoc b.storage update.1 final.1,
      r2 ∙ r1,
    )

-- Both ways, with what is known of the two buffers besides.
pub aes_sealed :
    (o : OpenSsl)
    → IsCipher o
    → (draw : ℕ) (key plain : ByteBuffer) → good_key key ≡ true
    → 0 < size plain
    → size plain + 64 < append_limit
    → (c : ByteBuffer) × (p : ByteBuffer) × (aes_encrypt o draw key plain empty ≡ ok (true, c))
      × (aes_decrypt o key c empty ≡ ok (true, p))
      × (p.storage ≡ plain.storage)
      × IsValid p
      × (p.rpos ≡ 0)
      × (0 < size c)
      × (size c ≤ size plain + 48)
      × IsValid c
unfolding aes_encrypt aes_decrypt
aes_sealed o law draw key plain g h k =
    let iv = o.random_bytes draw 16 in
    let n16 = law.random_length draw 16 in
    let update = o.encrypt_update key.storage iv plain.storage in
    let final = o.encrypt_final key.storage iv plain.storage in
    let body = update.1 ++ final.1 in
    let grown = law.grows key.storage iv plain.storage in
    let sum = length-append update.1 final.1 in
    let first =
      append_bytes_lem iv empty IsValid-empty (omega arith) (omega (arith, n16))
        (omega (arith, n16)) in
    let v = extend-IsValid iv empty IsValid-empty (omega (arith, n16)) in
    let (c, ec, vc, sc, rc) =
      two_calls_lem update final (extend iv empty)
        (ap is_negative (law.update_ok key.storage iv plain.storage))
        (ap is_negative (law.final_ok key.storage iv plain.storage)) v
        (omega (arith, n16, grown, sum)) (omega (arith, grown, sum)) in
    let back = law.decrypt_ok key.storage iv plain.storage in
    let u' = o.decrypt_update key.storage iv body in
    let f' = o.decrypt_final key.storage iv body in
    let total = ap length back.2 in
    let sum' = length-append u'.1 f'.1 in
    let (p, ep, vp, sp, rp) =
      two_calls_lem u' f' empty (ap is_negative back.0) (ap is_negative back.1) IsValid-empty
        (omega (arith, total, sum')) (omega (arith, total, sum')) in
    let size_c = ap length sc ∙ length-append iv body in
    let blocks : (size c % 16 == 0) ≡ true =
      (==_iff _ _).1 (omega (arith, size_c, n16, law.whole_blocks key.storage iv plain.storage)) in
    let long : ltb (size c) 16 ≡ false = le→ltb (size c) 16 (omega (arith, size_c, n16)) in
    (
      c,
      p,
      rw (g, ne→== (size plain) 0 (omega arith), first) ec,
      rw
          (
            g,
            blocks,
            long,
            ap (take 16) sc ∙ take-append_length 16 iv body (sym n16),
            ap (drop 16) sc ∙ drop-append_length 16 iv body (sym n16),
          )
          ep,
      sp ∙ back.2,
      vp,
      rp,
      omega (arith, size_c, n16),
      omega (arith, size_c, n16, grown, sum),
      vc,
    )

-- AesDecrypt gives back the text that AesEncrypt was given, with a key of 16 or 32 bytes, for every
-- text that is not empty and leaves room for the vector and the padding; both return 0.
pub aes_roundtrip :
    (o : OpenSsl)
    → IsCipher o
    → (draw : ℕ) (key plain : ByteBuffer) → good_key key ≡ true
    → 0 < size plain
    → size plain + 64 < append_limit
    → (c : ByteBuffer) × (p : ByteBuffer) × (aes_encrypt o draw key plain empty ≡ ok (true, c))
      × (aes_decrypt o key c empty ≡ ok (true, p))
      × (p.storage ≡ plain.storage)
aes_roundtrip o law draw key plain g h k =
    let (c, p, e, f, same, vp, rp, some_c, bound, vc) = aes_sealed o law draw key plain g h k in
    (c, p, e, f, same)

-- Only the contents of the key and of the ciphertext count.
pub aes_decrypt_lem :
    (o : OpenSsl) (key key' c c' plain : ByteBuffer)
    → key.storage ≡ key'.storage
    → c.storage ≡ c'.storage
    → aes_decrypt o key c plain ≡ aes_decrypt o key' c' plain
unfolding aes_decrypt
aes_decrypt_lem o key key' c c' plain e f = rw (e, f)

-- Where the last call of the cipher fails with 0, as it does on a wrong key or a changed
-- ciphertext, AesDecrypt still returns 0 and keeps what the first call wrote.
pub aes_decrypt_unverified :
    (o : OpenSsl) (key c : ByteBuffer) (out : List ℕ)
    → good_key key ≡ true
    → size c % block_size ≡ 0
    → block_size ≤ size c
    → o.decrypt_update key.storage (take block_size c.storage) (drop block_size c.storage)
      ≡ (one, out)
    → o.decrypt_final key.storage (take block_size c.storage) (drop block_size c.storage)
      ≡ (zero_ret, [])
    → length out < append_limit
    → (p : ByteBuffer) × (aes_decrypt o key c empty ≡ ok (true, p)) × (p.storage ≡ out)
unfolding aes_decrypt
aes_decrypt_unverified o key c out g m h eu ef k =
    let (p, ep, vp, sp, rp) =
      two_calls_lem (one, out) (zero_ret, []) empty refl refl IsValid-empty (omega arith)
        (omega arith) in
    let blocks : (size c % 16 == 0) ≡ true = (==_iff _ _).1 m in
    (p, rw (g, blocks, le→ltb (size c) 16 h, eu, ef) ep, sp ∙ append-nil out)
