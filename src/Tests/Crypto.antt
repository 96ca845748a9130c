-- ===== src/Tests/Crypto.antt =====
-- Instances of the theorems on keys, ciphers and base64.
use project_secure_chat.Base.{ℕ, ◌≡◌, refl, List, [], ◌∷◌, length, replicate, arith}
use project_secure_chat.Base.Result.{ok, ◌>>=◌}
use project_secure_chat.Buffer.Defs.{ByteBuffer}
use project_secure_chat.Buffer.Append.{IsValid}
use project_secure_chat.Crypto.OpenSsl.{OpenSsl, one, zero_ret}
use project_secure_chat.Crypto.Toy.{toy}
use project_secure_chat.Base64.Defs.{encode_base64, decode_base64}
use project_secure_chat.Base64.Roundtrip.{decode-encode_base64}

abbrev buffer_of : List ℕ → ByteBuffer
buffer_of bs = record { rpos = 0; wpos = length bs; storage = bs }

abbrev part_a : ByteBuffer
part_a = buffer_of (1 ∷ 2 ∷ 255 ∷ [])

abbrev part_b : ByteBuffer
part_b = buffer_of (7 ∷ 0 ∷ 15 ∷ [])

a-IsValid : IsValid part_a
a-IsValid = record { read_inside = omega arith; write_at_end = refl; fits = omega arith }

b-IsValid : IsValid part_b
b-IsValid = record { read_inside = omega arith; write_at_end = refl; fits = omega arith }

abbrev key16 : ByteBuffer
key16 = buffer_of (replicate 16 9)

-- A cipher whose last call of decryption fails.
abbrev failing : OpenSsl
failing = record toy {
  decrypt_update = λ key iv c. (one, c);
  decrypt_final = λ key iv c. (zero_ret, []);
}

decode-encode_base64_example :
    (encode_base64 (104 ∷ 105 ∷ 33 ∷ 0 ∷ []) >>= decode_base64) ≡ ok (104 ∷ 105 ∷ 33 ∷ 0 ∷ [])
decode-encode_base64_example =
    decode-encode_base64 (104 ∷ 105 ∷ 33 ∷ 0 ∷ []) (omega arith) (omega arith)
