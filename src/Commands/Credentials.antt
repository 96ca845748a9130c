-- ===== src/Commands/Credentials.antt =====
-- What the server reads in the packet of a command.
use project_secure_chat.Base.{
  ℕ, ◌+◌, ◌/◌, ◌%◌, ◌<◌, ◌≡◌, ◌≢◌, refl, ap, inl, inr, Bool-cases, Bool, some, List, [], ◌∷◌, ◌++◌,
  ltb, ne→==, length, length-append, arith,
}
use mathlib.Core.List.{append_assoc}
use project_secure_chat.Base.Result.{ok}
use project_secure_chat.Buffer.Defs.{ByteBuffer, empty, read_text}
use project_secure_chat.Buffer.Append.{IsValid-empty, extend, extend-IsValid, append_text_lem}
use project_secure_chat.Buffer.Read.{unread}
use project_secure_chat.Buffer.Text.{NonZero}
use project_secure_chat.Buffer.Fields.{text_Gives}
use project_secure_chat.Crypto.OpenSsl.{OpenSsl}
use project_secure_chat.Packet.Defs.{Packet, new_packet}
use project_secure_chat.Commands.Parse.{first_word}
use project_secure_chat.Commands.Packets.{
  hex_digit, hex, sha256_digest, skip_delimiters, after_word, strtok, channel_packet,
}

-- A word without spaces.
abbrev pub NoSpace : List ℕ → Type 0
NoSpace [] = Unit {0}
NoSpace (c ∷ cs) = (c ≢ 32) × NoSpace cs

word_lem : (w rest : List ℕ) → NoSpace w → first_word (w ++ 32 ∷ rest) ≡ w
unfolding first_word
word_lem [] rest h = refl
word_lem (c ∷ cs) rest h = rw (ne→== c 32 h.0) (ap (λ xs. c ∷ xs) (word_lem cs rest h.1))

word_end : (w : List ℕ) → NoSpace w → first_word w ≡ w
unfolding first_word
word_end [] h = refl
word_end (c ∷ cs) h = rw (ne→== c 32 h.0) (ap (λ xs. c ∷ xs) (word_end cs h.1))

after_lem : (w rest : List ℕ) → NoSpace w → after_word (w ++ 32 ∷ rest) ≡ rest
unfolding after_word
after_lem [] rest h = refl
after_lem (c ∷ cs) rest h = rw (ne→== c 32 h.0) (after_lem cs rest h.1)

after_end : (w : List ℕ) → NoSpace w → after_word w ≡ []
unfolding after_word
after_end [] h = refl
after_end (c ∷ cs) h = rw (ne→== c 32 h.0) (after_end cs h.1)

strtok_lem :
    (c : ℕ) (w rest : List ℕ) → NoSpace (c ∷ w) → strtok ((c ∷ w) ++ 32 ∷ rest) ≡ some (c ∷ w, rest)
unfolding strtok skip_delimiters
strtok_lem c w rest h = rw (ne→== c 32 h.0, word_lem (c ∷ w) rest h, after_lem (c ∷ w) rest h)

strtok_end : (c : ℕ) (w : List ℕ) → NoSpace (c ∷ w) → strtok (c ∷ w) ≡ some (c ∷ w, [])
unfolding strtok skip_delimiters
strtok_end c w h = rw (ne→== c 32 h.0, word_end (c ∷ w) h, after_end (c ∷ w) h)

digit_lem : (v : ℕ) → hex_digit v ≢ 0
digit_lem v = elim (Bool-cases (ltb v 10)) [
  | inl e ↦ rw e (λ h. absurd (omega (arith, h)))
  | inr e ↦ rw e (λ h. absurd (omega (arith, h)))
]

hex-NonZero : (bs : List ℕ) → NonZero (hex bs)
hex-NonZero [] = tt
hex-NonZero (b ∷ bs) = (digit_lem (b / 16), (digit_lem (b % 16), hex-NonZero bs))

length-hex : (bs : List ℕ) → length (hex bs) ≡ length bs + length bs
length-hex [] = refl
length-hex (b ∷ bs) = omega (arith, length-hex bs)

-- A name and a password without spaces, typed behind a command for a channel, arrive in its packet:
-- the server reads first the name, then the digest of the password in hexadecimal. The name has no zero and
-- fewer than 60000 characters, and the digest 32 bytes.
pub credentials_lem :
    (o : OpenSsl) (be : Bool) (opcode c : ℕ) (name : List ℕ) (d : ℕ) (password : List ℕ)
    → NoSpace (c ∷ name)
    → NoSpace (d ∷ password)
    → NonZero (c ∷ name)
    → length (c ∷ name) < 60000
    → length (o.sha256 (d ∷ password)) ≡ 32
    → (p : Packet) × (b1 : ByteBuffer) × (b2 : ByteBuffer) × (channel_packet o opcode
          ((c ∷ name) ++ 32 ∷ d ∷ password)
        ≡ ok (some p))
      × (p.opcode ≡ opcode)
      × (read_text be p.buffer ≡ ok (c ∷ name, b1))
      × (read_text be b1 ≡ ok (sha256_digest o (d ∷ password), b2))
unfolding channel_packet sha256_digest
credentials_lem o be opcode c name d password h k nz short len =
    let t1 = (c ∷ name) ++ 0 ∷ [] in
    let digest = hex (o.sha256 (d ∷ password)) in
    let l1 = length-append (c ∷ name) (0 ∷ []) in
    let l2 = length-hex (o.sha256 (d ∷ password)) in
    let l3 = length-append digest (0 ∷ []) in
    let f1 = extend t1 empty in
    let v1 = extend-IsValid t1 empty IsValid-empty (omega arith) in
    let f2 = extend (digest ++ 0 ∷ []) f1 in
    let v2 = extend-IsValid (digest ++ 0 ∷ []) f1 v1 (omega arith) in
    let e : unread f2 ≡ (c ∷ name) ++ 0 ∷ (digest ++ 0 ∷ []) =
      append_assoc (c ∷ name) (0 ∷ []) (digest ++ 0 ∷ []) in
    let g1 = text_Gives be (c ∷ name) (digest ++ 0 ∷ []) f2 nz v2 e in
    let g2 =
      text_Gives be digest [] g1.after (hex-NonZero (o.sha256 (d ∷ password))) g1.valid g1.left in
    (
      record (new_packet opcode) { buffer = f2 },
      g1.after,
      g2.after,
      rw (
        strtok_lem c name (d ∷ password) h,
        strtok_end d password k,
        append_text_lem (c ∷ name) empty IsValid-empty (omega arith),
        append_text_lem digest f1 v1 (omega arith),
      ),
      refl,
      g1.gives,
      g2.gives,
    )
