-- ===== src/Base64/Defs.antt =====
-- src/shared/crypto/base64.cpp. An `unsigned int` has 32 bits. `acc << 8 | byte` and
-- `acc << 6 | digit` are sums, since the low bits of the left operand are 0. A `char` above 127 is
-- negative.
use project_secure_chat.Base.{
  ℕ, zero, suc, ◌+◌, ◌-◌, ◌*◌, ◌/◌, ◌%◌, ◌^◌, Bool, ◌&&◌, ◌||◌, List, [], ◌∷◌, ◌++◌, ltb, leb, ◌==◌,
  if◌then◌else◌, get_or, length, replicate, codes,
}
use project_secure_chat.Base.Result.{
  Result, ok, length_error, invalid_argument, ◌>>=◌, ◌>>◌, throw_if,
}

-- b64_table
unfoldable pub b64_digit : ℕ → ℕ
b64_digit v = get_or (codes "ABCDEFGHIJKLMNOPQRSTUVWXYZabcdefghijklmnopqrstuvwxyz0123456789+/") v 0

-- reverse_table; 64 marks a character outside the alphabet.
abbrev reverse_table : List ℕ
reverse_table =
    64 ∷ 64 ∷ 64 ∷ 64 ∷ 64 ∷ 64 ∷ 64 ∷ 64 ∷ 64 ∷ 64 ∷ 64 ∷ 64 ∷ 64 ∷ 64 ∷ 64 ∷ 64 ∷ 64 ∷ 64 ∷ 64
    ∷ 64 ∷ 64 ∷ 64 ∷ 64 ∷ 64 ∷ 64 ∷ 64 ∷ 64 ∷ 64 ∷ 64 ∷ 64 ∷ 64 ∷ 64 ∷ 64 ∷ 64 ∷ 64 ∷ 64 ∷ 64 ∷ 64
    ∷ 64 ∷ 64 ∷ 64 ∷ 64 ∷ 64 ∷ 62 ∷ 64 ∷ 64 ∷ 64 ∷ 63 ∷ 52 ∷ 53 ∷ 54 ∷ 55 ∷ 56 ∷ 57 ∷ 58 ∷ 59 ∷ 60
    ∷ 61 ∷ 64 ∷ 64 ∷ 64 ∷ 64 ∷ 64 ∷ 64 ∷ 64 ∷ 0 ∷ 1 ∷ 2 ∷ 3 ∷ 4 ∷ 5 ∷ 6 ∷ 7 ∷ 8 ∷ 9 ∷ 10 ∷ 11 ∷ 12
    ∷ 13 ∷ 14 ∷ 15 ∷ 16 ∷ 17 ∷ 18 ∷ 19 ∷ 20 ∷ 21 ∷ 22 ∷ 23 ∷ 24 ∷ 25 ∷ 64 ∷ 64 ∷ 64 ∷ 64 ∷ 64 ∷ 64
    ∷ 26 ∷ 27 ∷ 28 ∷ 29 ∷ 30 ∷ 31 ∷ 32 ∷ 33 ∷ 34 ∷ 35 ∷ 36 ∷ 37 ∷ 38 ∷ 39 ∷ 40 ∷ 41 ∷ 42 ∷ 43 ∷ 44
    ∷ 45 ∷ 46 ∷ 47 ∷ 48 ∷ 49 ∷ 50 ∷ 51 ∷ 64 ∷ 64 ∷ 64 ∷ 64 ∷ 64 ∷ []

unfoldable pub reverse_digit : ℕ → ℕ
reverse_digit c = get_or reverse_table c 64

-- The inner loop of EncodeBase64, on the bits collected: the digits that it writes, and the bits
-- left over. After one byte there are two rounds at most.
unfoldable pub write_digits : ℕ → ℕ → ℕ → List ℕ × ℕ
write_digits zero bits acc = ([], bits)
write_digits (suc fuel) bits acc =
    let rest = write_digits fuel (bits - 6) acc in
    if leb 6 bits then (b64_digit (acc / 2 ^ (bits - 6) % 64) ∷ rest.0, rest.1) else ([], bits)

-- The digits that are written for the bytes that follow.
unfoldable pub encode_loop : ℕ → ℕ → List ℕ → List ℕ
unfolding write_digits
encode_loop bits acc [] =
    if ltb 0 bits then b64_digit (acc * 2 ^ (6 - bits) % 2 ^ 32 % 64) ∷ [] else []
encode_loop bits acc (x ∷ xs) =
    let acc' = acc * 256 % 2 ^ 32 + x % 256 in
    let (digits, bits') = write_digits 2 (bits + 8) acc' in digits ++ encode_loop bits' acc' xs

-- The length of the result, which is made of `=` before the digits are written over it.
abbrev pub padded_length : ℕ → ℕ
padded_length n = (n + 2) / 3 * 4

unfoldable pub encode_base64 : List ℕ → Result (List ℕ)
encode_base64 bs = do
  throw_if (ltb ((2 ^ 64 - 1) / 4 * 3) (length bs)) length_error
  let digits = encode_loop 0 0 bs
  ok (digits ++ replicate (padded_length (length bs) - length digits) b'=')

-- isspace in the C locale.
abbrev pub is_space : ℕ → Bool
is_space c = c == 32 || (leb 9 c && leb c 13)

abbrev pub push {ℓ} : {A : Type ℓ} → A → Result (List A) → Result (List A)
push a r = do rest ← r; ok (a ∷ rest)

-- The bytes that are decoded from the characters that follow.
unfoldable pub decode_loop : ℕ → ℕ → List ℕ → Result (List ℕ)
decode_loop bits acc [] = ok []
decode_loop bits acc (c ∷ cs) =
    let v = reverse_digit c in
    let acc' = acc * 64 % 2 ^ 32 + v in
    let skip = decode_loop bits acc cs in
    let keep = decode_loop (bits + 6) acc' cs in
    let out = decode_loop (bits + 6 - 8) acc' cs in
    if is_space c || c == b'='
    then skip
    else if ltb 127 c || ltb 63 v
    then Result.err invalid_argument
    else if leb 8 (bits + 6)
    then push (acc' / 2 ^ (bits + 6 - 8) % 256) out
    else keep

unfoldable pub decode_base64 : List ℕ → Result (List ℕ)
decode_base64 cs = decode_loop 0 0 cs
