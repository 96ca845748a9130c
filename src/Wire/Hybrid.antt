-- ===== src/Wire/Hybrid.antt =====
-- src/shared/networking/packet.cpp: Encrypt in the hybrid mode, under which the login runs, returns where
-- the private key can be read.
use project_secure_chat.Base.{
  ℕ, suc, ◌+◌, ◌^◌, ◌<◌, ◌≤◌, ◌≡◌, refl, sym, ap, ◌∙◌, Bool, true, false, inl, inr, Option-cases,
  none, some, List, [], ◌∷◌, ◌++◌, lt→ltb, length, length-append, take, take_all, arith, Bool-cases,
  ltb,
}
use mathlib.Core.List.{append_assoc, append-nil}
use project_secure_chat.Base.Result.{ok}
use project_secure_chat.Buffer.Words.{w8, encode, length-encode}
use project_secure_chat.Buffer.Defs.{ByteBuffer, size, empty, clear, append_limit, append_buffer}
use project_secure_chat.Buffer.Append.{
  IsValid, IsValid-empty, extend, extend-IsValid, append_bytes_lem, append_from_lem,
}
use project_secure_chat.Buffer.Read.{unread}
use project_secure_chat.Buffer.Fields.{text_Gives, value_Gives}
use project_secure_chat.Buffer.Text.{NonZero, before_zero}
use project_secure_chat.Crypto.OpenSsl.{OpenSsl, IsCipher, IsRsa}
use project_secure_chat.Crypto.Aes.{aes_sealed, good_key}
use project_secure_chat.Crypto.Rsa.{
  Code, success, minus_one, plus_one, rsa_priv_key, rsa_pub_key, rsa_sign, rsa_encrypt,
  given_password, store_output,
}
use project_secure_chat.Login.Parts.{IsRandom, filled, random_key_lem}
use project_secure_chat.Packet.Defs.{Packet, mode_hyb}
use project_secure_chat.Packet.Seal.{
  encrypt, hybrid_params, seal_hybrid, seal_key, seal_with, Sealed,
}

-- The names of the two files of keys, of which the private one can be read.
pub record HasKeys (o : OpenSsl) (mine other : List ℕ) : Type 0 where
  pub key : ℕ
  pub reads : rsa_priv_key o (before_zero mine) none ≡ some key
  pub mine_fits : NonZero mine
  pub other_fits : NonZero other
  pub mine_short : length mine < 60000
  pub other_short : length other < 60000

-- What the two names and the byte that says that there is no password are appended to.
abbrev pub key_params : Bool → List ℕ → List ℕ → ByteBuffer
key_params be mine other =
    extend (encode be w8 0) (extend (mine ++ 0 ∷ []) (extend (other ++ 0 ∷ []) empty))

pub key_params-IsValid :
    (be : Bool) (mine other : List ℕ)
    → length mine < 60000
    → length other < 60000
    → IsValid (extend (other ++ 0 ∷ []) empty)
      × IsValid (extend (mine ++ 0 ∷ []) (extend (other ++ 0 ∷ []) empty))
      × IsValid (key_params be mine other)
key_params-IsValid be mine other h k =
    let l1 = length-append other (0 ∷ []) in
    let l2 = length-append mine (0 ∷ []) in
    let l3 = length-append (other ++ 0 ∷ []) (mine ++ 0 ∷ []) in
    let v1 = extend-IsValid (other ++ 0 ∷ []) empty IsValid-empty (omega arith) in
    let v2 = extend-IsValid (mine ++ 0 ∷ []) (extend (other ++ 0 ∷ []) empty) v1 (omega arith) in
    (v1, v2, extend-IsValid (encode be w8 0) _ v2 (omega (arith, length-encode be w8 0)))

hybrid_params_lem :
    (o : OpenSsl) (be : Bool) (mine other : List ℕ)
    → HasKeys o mine other
    → hybrid_params be (key_params be mine other) ≡ ok (other, mine, none)
unfolding hybrid_params
hybrid_params_lem o be mine other h =
    let b = key_params be mine other in
    let (v1, v2, v) = key_params-IsValid be mine other h.mine_short h.other_short in
    let zero = encode be w8 0 in
    let e : unread b ≡ other ++ 0 ∷ (mine ++ 0 ∷ (zero ++ [])) =
      append_assoc (other ++ 0 ∷ []) (mine ++ 0 ∷ []) zero
      ∙ append_assoc other (0 ∷ []) ((mine ++ 0 ∷ []) ++ zero)
      ∙ ap (λ r. other ++ 0 ∷ r) (append_assoc mine (0 ∷ []) zero)
      ∙ ap (λ r. other ++ 0 ∷ (mine ++ 0 ∷ r)) (sym (append-nil zero)) in
    let g1 = text_Gives be other (mine ++ 0 ∷ (zero ++ [])) b h.other_fits v e in
    let g2 = text_Gives be mine (zero ++ []) g1.after h.mine_fits g1.valid g1.left in
    let g3 = value_Gives be w8 0 [] g2.after (omega arith) g2.valid g2.left in
    rw (g1.gives, g2.gives, g3.gives)

-- What RsaEncrypt makes of a fresh key.
wrapped_lem :
    (o : OpenSsl)
    → IsRsa o
    → (other key : List ℕ) → length key ≡ 32
    → (code : Code) × (c : List ℕ) × (rsa_encrypt o other (filled key) empty
        ≡ ok (code, extend c empty))
      × (length c ≤ 65536)
unfolding rsa_encrypt store_output clear
wrapped_lem o law other key len = elim (Option-cases (rsa_pub_key o (before_zero other))) [
  | inl e ↦ (minus_one, [], rw e refl, omega arith)
  | inr (pk, e) ↦ elim (Option-cases (o.public_encrypt pk key)) [
    | inl f ↦ (minus_one, [], rw (e, f) refl, omega arith)
    | inr (c, f) ↦
        let (some_c, few) = law.wraps pk key c len f in
        (
          success,
          c,
          rw (e, f, append_bytes_lem c empty IsValid-empty (omega arith) some_c (omega arith)) refl,
          few,
        )
  ]
]

finished_lem :
    (p : Packet) (signed : ByteBuffer) (done : Bool) (b : ByteBuffer)
    → size b < 2 ^ 61
    → (d : Bool) × (q : Packet) × (seal_with p (signed, (done, b)) ≡ ok (d, q))
unfolding seal_with clear
finished_lem p signed false b h = (false, record p { buffer = signed }, refl)
finished_lem p signed true b h = elim (Bool-cases (ltb 0 (size b))) [
  | inr e ↦ (true, record p { buffer = empty; encrypted = true }, rw e refl)
  | inl e ↦ (
    true,
    record p { buffer = extend (take (size b) b.storage) empty; encrypted = true },
    rw
        (
          e,
          append_from_lem b.storage (size b) empty IsValid-empty (omega arith) (ground arith)
              (omega arith) h,
        )
        refl,
  )
]

encrypt_of :
    (o : OpenSsl) (be : Bool) (draw : ℕ) (par : ByteBuffer) (p : Packet) (r : Sealed)
    (x : Bool × Packet)
    → seal_hybrid o be draw par p.buffer ≡ ok r
    → seal_with (record p { mode = mode_hyb }) r ≡ ok x
    → encrypt o be draw par (record p { mode = mode_hyb }) ≡ ok x
unfolding encrypt
encrypt_of o be draw par p r x e f = rw e f

module _ (o : OpenSsl) (law : IsRandom o) (cipher : IsCipher o) (rsa : IsRsa o) where
  -- Whatever the code of RsaEncrypt is, the ciphertext is short.
  key_sealed :
      (draw : ℕ) (key signed : ByteBuffer) (code : Code) (c : List ℕ)
      → good_key key ≡ true
      → 0 < size signed
      → size signed + 64 < append_limit
      → length c ≤ 65536
      → (done : Bool) × (b : ByteBuffer) × (seal_key o draw key signed (code, extend c empty)
          ≡ ok (signed, (done, b)))
        × (size b < 2 ^ 61)
  unfolding seal_key append_buffer
  key_sealed draw key signed minus_one c g pos room few = (false, extend c empty, refl, omega arith)
  key_sealed draw key signed plus_one c g pos room few = (false, extend c empty, refl, omega arith)
  key_sealed draw key signed success c g pos room few =
      let (body, t, e, f, same, vt, rt, some_c, bound, vc) =
        aes_sealed o cipher draw key signed g pos room in
      let w = vc.write_at_end in
      let v = extend-IsValid c empty IsValid-empty (omega arith) in
      (
        true,
        extend (take body.wpos body.storage) (extend c empty),
        rw
            (
              e,
              lt→ltb 0 body.wpos (omega arith),
              append_from_lem body.storage body.wpos (extend c empty) v (omega arith) (omega arith)
                  (omega arith) (omega arith),
            )
            refl,
        omega (
          arith,
          length-append c (take body.wpos body.storage),
          ap length (take_all body.wpos body.storage (omega arith)),
        ),
      )

  -- Encrypt of a packet with up to 65000 bytes returns.
  pub hybrid_lem :
      (be : Bool) (mine other : List ℕ) (draw : ℕ) (p : Packet)
      → HasKeys o mine other
      → IsValid p.buffer
      → 0 < size p.buffer
      → size p.buffer ≤ 65000
      → (done : Bool) × (q : Packet) × (encrypt o be draw
            (key_params be mine other)
            (record p { mode = mode_hyb })
          ≡ ok (done, q))
  unfolding seal_hybrid rsa_sign given_password
  hybrid_lem be mine other draw p keys v pos small =
      let digest = o.sha256 p.buffer.storage in
      let (s, e, some_s, few_s) = rsa.signs keys.key digest in
      let fresh = o.random_bytes draw 32 in
      let len = law.count draw 32 in
      let (code, c, f, few) = wrapped_lem o rsa other fresh len in
      let signed = extend (take (length s) s) p.buffer in
      let all = take_all (length s) s (omega arith) in
      let size_s = length-append p.buffer.storage (take (length s) s) in
      let room : size signed + 64 < append_limit = omega (arith, size_s, ap length all) in
      let (done, b, g, short) =
        key_sealed (suc draw) (filled fresh) signed code c (rw len refl) (omega (arith, size_s))
          room few in
      let sealed : seal_hybrid o be draw (key_params be mine other) p.buffer
          ≡ ok (signed, (done, b)) =
        rw
          (
            hybrid_params_lem o be mine other keys,
            keys.reads,
            e,
            append_bytes_lem s empty IsValid-empty (omega arith) some_s (omega arith),
            append_from_lem s (length s) p.buffer v (omega arith) (omega arith) (omega arith)
                (omega arith),
            random_key_lem o law draw empty,
            f,
            g,
          )
          refl in
      let (d, q, h) = finished_lem (record p { mode = mode_hyb }) signed done b short in
      (d, q, encrypt_of o be draw (key_params be mine other) p (signed, (done, b)) (d, q) sealed h)
