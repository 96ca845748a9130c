-- ===== src/Base64/Roundtrip.antt =====
-- What is decoded from an encoded text.
use project_secure_chat.Base.{
  ℕ, zero, suc, ◌+◌, ◌-◌, ◌*◌, ◌/◌, ◌%◌, ◌^◌, ◌≤◌, ◌<◌, ◌≡◌, refl, Bool, true, false, not, ◌&&◌,
  ◌||◌, List, [], ◌∷◌, ◌++◌, ltb, leb, ◌==◌, if◌then◌else◌, length, replicate, arith, le→ltb,
}
use project_secure_chat.Base.Tables.{holds_below, test-holds_below}
use project_secure_chat.Base.Result.{ok, ◌>>=◌}
use project_secure_chat.Base64.Defs.{
  b64_digit, reverse_digit, write_digits, encode_loop, padded_length, encode_base64, is_space, push,
  decode_loop, decode_base64,
}

legal : ℕ → Bool
legal v =
    let c = b64_digit v in
    not (is_space c || c == b'=')
    && (not (ltb 127 c || ltb 63 (reverse_digit c)) && reverse_digit c == v)

legal_table : holds_below legal 64 ≡ true
unfolding holds_below legal b64_digit reverse_digit
legal_table = refl

-- A digit of the alphabet is not skipped, is legal, and stands for its value.
b64_digit_lem :
    (v : ℕ)
    → v < 64
    → ((is_space (b64_digit v) || b64_digit v == b'=') ≡ false)
      × ((ltb 127 (b64_digit v) || ltb 63 (reverse_digit (b64_digit v))) ≡ false)
      × (reverse_digit (b64_digit v) ≡ v)
unfolding legal
b64_digit_lem v h = ground (arith, test-holds_below legal 64 v h legal_table)

decode_digit :
    (bits acc v : ℕ) (cs : List ℕ)
    → v < 64
    → decode_loop bits acc (b64_digit v ∷ cs) ≡ (
        if leb 8 (bits + 6)
        then push
            ((acc * 64 % 2 ^ 32 + v) / 2 ^ (bits + 6 - 8) % 256)
            (decode_loop (bits + 6 - 8) (acc * 64 % 2 ^ 32 + v) cs)
        else decode_loop (bits + 6) (acc * 64 % 2 ^ 32 + v) cs)
unfolding decode_loop
decode_digit bits acc v cs h = let (p, q, r) = b64_digit_lem v h in rw (p, q, r)

decode_pad : (bits acc n : ℕ) → decode_loop bits acc (replicate n b'=') ≡ ok []
unfolding decode_loop
decode_pad bits acc zero = refl
decode_pad bits acc (suc n) = decode_pad bits acc n

-- The digits of one byte, of two, and of three.
abbrev digit1 : ℕ → ℕ
digit1 a = a / 4

abbrev digit2 : ℕ → ℕ → ℕ
digit2 a b = a % 4 * 16 + b / 16

abbrev digit3 : ℕ → ℕ → ℕ
digit3 b c = b % 16 * 4 + c / 64

abbrev shift8 : ℕ → ℕ → ℕ
shift8 acc x = acc * 256 % 2 ^ 32 + x % 256

abbrev shift6 : ℕ → ℕ → ℕ
shift6 acc v = acc * 64 % 2 ^ 32 + v

module _ (acc a : ℕ) (ha : a < 256) where
  out1 : shift8 acc a / 2 ^ 2 % 64 ≡ digit1 a
  out1 = omega arith

  out2_last : shift8 acc a * 2 ^ 4 % 2 ^ 32 % 64 ≡ digit2 a 0
  out2_last = omega arith

  module _ (b : ℕ) (hb : b < 256) where
    out2 : shift8 (shift8 acc a) b / 2 ^ 4 % 64 ≡ digit2 a b
    out2 = omega arith

    out3_last : shift8 acc b * 2 ^ 2 % 2 ^ 32 % 64 ≡ digit3 b 0
    out3_last = omega arith

    in1 : shift6 (shift6 acc (digit1 a)) (digit2 a b) / 2 ^ 4 % 256 ≡ a
    in1 = omega arith

out3 : (acc b c : ℕ) → b < 256 → c < 256 → shift8 (shift8 acc b) c / 2 ^ 6 % 64 ≡ digit3 b c
out3 acc b c hb hc = omega arith

out4 : (acc c : ℕ) → c < 256 → shift8 acc c / 2 ^ 0 % 64 ≡ c % 64
out4 acc c hc = omega arith

in2 :
    (acc a b c : ℕ)
    → b < 256
    → c < 256
    → shift6 (shift6 acc (digit2 a b)) (digit3 b c) / 2 ^ 2 % 256 ≡ b
in2 acc a b c hb hc = omega arith

in3 : (acc b c : ℕ) → c < 256 → shift6 (shift6 acc (digit3 b c)) (c % 64) / 2 ^ 0 % 256 ≡ c
in3 acc b c hc = omega arith

-- The inner loop ends by its test, at most two rounds after each byte.
pub write_digits_ends : (bits acc : ℕ) → bits < 6 → (write_digits 2 (bits + 8) acc).1 < 6
unfolding write_digits
write_digits_ends bits acc h = ground arith

encode_one :
    (acc a : ℕ)
    → a < 256
    → encode_loop 0 acc (a ∷ []) ≡ b64_digit (digit1 a) ∷ b64_digit (digit2 a 0) ∷ []
unfolding encode_loop write_digits
encode_one acc a ha = rw (out1 acc a ha, out2_last acc a ha)

encode_two :
    (acc a b : ℕ)
    → a < 256
    → b < 256
    → encode_loop 0 acc (a ∷ b ∷ [])
      ≡ b64_digit (digit1 a) ∷ b64_digit (digit2 a b) ∷ b64_digit (digit3 b 0) ∷ []
unfolding encode_loop write_digits
encode_two acc a b ha hb =
    rw (out1 acc a ha, out2 acc a ha b hb, out3_last (shift8 acc a) a ha b hb)

encode_three :
    (acc a b c : ℕ) (rest : List ℕ)
    → a < 256
    → b < 256
    → c < 256
    → encode_loop 0 acc (a ∷ b ∷ c ∷ rest)
      ≡ b64_digit (digit1 a)
        ∷ b64_digit (digit2 a b)
        ∷ b64_digit (digit3 b c)
        ∷ b64_digit (c % 64)
        ∷ encode_loop 0 (shift8 (shift8 (shift8 acc a) b) c) rest
unfolding encode_loop write_digits
encode_three acc a b c rest ha hb hc = rw (
  out1 acc a ha,
  out2 acc a ha b hb,
  out3 (shift8 acc a) b c hb hc,
  out4 (shift8 (shift8 acc a) b) c hc,
)

abbrev pub Bytes : List ℕ → Type 0
Bytes [] = Unit {0}
Bytes (x ∷ xs) = (x < 256) × Bytes xs

decode_encode_loop :
    (acc m n : ℕ) (bs : List ℕ)
    → Bytes bs
    → decode_loop 0 m (encode_loop 0 acc bs ++ replicate n b'=') ≡ ok bs
decode_encode_loop acc m n [] h = unfold encode_loop in decode_pad 0 m n
decode_encode_loop acc m n (a ∷ []) h = rw (
  encode_one acc a h.0,
  decode_digit 0 m (digit1 a) (b64_digit (digit2 a 0) ∷ replicate n b'=') (omega arith),
  decode_digit 6 (shift6 m (digit1 a)) (digit2 a 0) (replicate n b'=') (omega arith),
  in1 m a h.0 0 (omega arith),
  decode_pad 4 (shift6 (shift6 m (digit1 a)) (digit2 a 0)) n,
)
decode_encode_loop acc m n (a ∷ b ∷ []) h =
    let m2 = shift6 (shift6 m (digit1 a)) (digit2 a b) in
    rw (
      encode_two acc a b h.0 h.1.0,
      decode_digit 0 m (digit1 a)
          (b64_digit (digit2 a b) ∷ b64_digit (digit3 b 0) ∷ replicate n b'=') (omega arith),
      decode_digit 6 (shift6 m (digit1 a)) (digit2 a b) (b64_digit (digit3 b 0) ∷ replicate n b'=')
          (omega arith),
      in1 m a h.0 b h.1.0,
      decode_digit 4 m2 (digit3 b 0) (replicate n b'=') (omega arith),
      in2 (shift6 m (digit1 a)) a b 0 h.1.0 (omega arith),
      decode_pad 2 (shift6 m2 (digit3 b 0)) n,
    )
decode_encode_loop acc m n (a ∷ b ∷ c ∷ rest) h =
    let m1 = shift6 m (digit1 a) in
    let m2 = shift6 m1 (digit2 a b) in
    let m3 = shift6 m2 (digit3 b c) in
    let tail = encode_loop 0 (shift8 (shift8 (shift8 acc a) b) c) rest ++ replicate n b'=' in
    rw (
      encode_three acc a b c rest h.0 h.1.0 h.1.1.0,
      decode_digit 0 m (digit1 a)
          (b64_digit (digit2 a b) ∷ b64_digit (digit3 b c) ∷ b64_digit (c % 64) ∷ tail)
          (omega arith),
      decode_digit 6 m1 (digit2 a b) (b64_digit (digit3 b c) ∷ b64_digit (c % 64) ∷ tail)
          (omega arith),
      in1 m a h.0 b h.1.0,
      decode_digit 4 m2 (digit3 b c) (b64_digit (c % 64) ∷ tail) (omega arith),
      in2 m1 a b c h.1.0 h.1.1.0,
      decode_digit 2 m3 (c % 64) tail (omega arith),
      in3 m2 b c h.1.1.0,
      decode_encode_loop (shift8 (shift8 (shift8 acc a) b) c) (shift6 m3 (c % 64)) n rest h.1.1.1,
    )

-- The largest text that is encoded.
abbrev pub encode_limit : ℕ
encode_limit = (2 ^ 64 - 1) / 4 * 3

-- DecodeBase64 gives back what EncodeBase64 was given, for every text of bytes up to the limit of
-- the encoder.
pub decode-encode_base64 :
    (bs : List ℕ)
    → Bytes bs
    → length bs ≤ encode_limit
    → (encode_base64 bs >>= decode_base64) ≡ ok bs
unfolding encode_base64 decode_base64
decode-encode_base64 bs h k =
    rw (le→ltb encode_limit (length bs) k)
      (decode_encode_loop 0 0 (padded_length (length bs) - length (encode_loop 0 0 bs)) bs h)

length-encode_loop :
    (acc : ℕ) (bs : List ℕ)
    → Bytes bs
    → (length (encode_loop 0 acc bs) ≤ padded_length (length bs))
      × (padded_length (length bs) ≤ length (encode_loop 0 acc bs) + 2)
length-encode_loop acc [] h = unfold encode_loop in omega arith
length-encode_loop acc (a ∷ []) h = rw (encode_one acc a h.0) (omega arith)
length-encode_loop acc (a ∷ b ∷ []) h = rw (encode_two acc a b h.0 h.1.0) (omega arith)
length-encode_loop acc (a ∷ b ∷ c ∷ rest) h =
    rw (encode_three acc a b c rest h.0 h.1.0 h.1.1.0)
      (omega (arith, length-encode_loop (shift8 (shift8 (shift8 acc a) b) c) rest h.1.1.1))

-- The two asserts at the end of EncodeBase64 hold: the digits fill the result but for two
-- characters at most, and are never more than it holds.
pub encode_asserts :
    (bs : List ℕ)
    → Bytes bs
    → (length (encode_loop 0 0 bs) ≤ padded_length (length bs))
      × (padded_length (length bs) ≤ length (encode_loop 0 0 bs) + 2)
encode_asserts bs h = length-encode_loop 0 bs h
