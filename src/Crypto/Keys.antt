-- ===== src/Crypto/Keys.antt =====
-- src/shared/crypto/crypto.cpp: Xor, by which both sides derive the session key.
use Prim.Native.Nat.{bit_xor}
use project_secure_chat.Base.{
  ℕ, ◌+◌, ◌%◌, ◌^◌, ◌≤◌, ◌<◌, ◌≡◌, refl, sym, ap, ◌∙◌, Bool, true, List, [], ◌∷◌, ltb, lt→ltb, ◌==◌,
  ==_iff, if◌then◌else◌, length, drop, drop-drop, length-drop, arith,
}
use project_secure_chat.Base.Tables.{holds_below, test-holds_below}
use project_secure_chat.Base.Result.{Result, ok, err, position, ◌>>=◌}
use project_secure_chat.Buffer.Words.{w8, decode}
use project_secure_chat.Buffer.Defs.{ByteBuffer, size, read_at}
use project_secure_chat.Buffer.Append.{IsValid}
use project_secure_chat.Buffer.Read.{bytes_at_lem, bytes_at_short}

-- k = (++k < key.size() ? k : 0), on a uint16.
abbrev pub next_index : ℕ → ByteBuffer → ℕ
next_index k key = let n = (k + 1) % 2 ^ 16 in if ltb n (size key) then n else 0

-- The loop of Xor over the bytes of `data`.
unfoldable pub xor_loop : Bool → ByteBuffer → ℕ → List ℕ → Result (List ℕ)
xor_loop be key k [] = ok []
xor_loop be key k (d ∷ ds) = do
  b ← read_at be w8 k key
  rest ← xor_loop be key (next_index k key) ds
  ok (bit_xor d b % 256 ∷ rest)

-- Xor(data, key); only an empty key throws, at the first byte.
unfoldable pub xor_buffer : Bool → ByteBuffer → ByteBuffer → Result ByteBuffer
xor_buffer be data' key = do
  bs ← xor_loop be key 0 data'.storage
  ok (record data' { storage = bs })

-- Xor of two lists of bytes, place by place.
unfoldable pub zip_xor : List ℕ → List ℕ → List ℕ
zip_xor [] ys = []
zip_xor (x ∷ xs) [] = []
zip_xor (x ∷ xs) (y ∷ ys) = bit_xor x y ∷ zip_xor xs ys

abbrev pub Bytes : List ℕ → Type 0
Bytes [] = Unit {0}
Bytes (x ∷ xs) = (x < 256) × Bytes xs

row_ok : ℕ → ℕ → Bool
row_ok x y = bit_xor x y % 256 == bit_xor x y

comm_ok : ℕ → ℕ → Bool
comm_ok x y = bit_xor x y == bit_xor y x

byte_table : holds_below (λ x. holds_below (row_ok x) 256) 256 ≡ true
unfolding holds_below row_ok
byte_table = refl

comm_table : holds_below (λ x. holds_below (comm_ok x) 256) 256 ≡ true
unfolding holds_below comm_ok
comm_table = refl

xor_byte : (x y : ℕ) → x < 256 → y < 256 → bit_xor x y % 256 ≡ bit_xor x y
unfolding row_ok
xor_byte x y hx hy = (==_iff _ _).0 (
    test-holds_below (row_ok x) 256 y hy
      (test-holds_below (λ z. holds_below (row_ok z) 256) 256 x hx byte_table))

xor_comm : (x y : ℕ) → x < 256 → y < 256 → bit_xor x y ≡ bit_xor y x
unfolding comm_ok
xor_comm x y hx hy = (==_iff _ _).0 (
    test-holds_below (comm_ok x) 256 y hy
      (test-holds_below (λ z. holds_below (comm_ok z) 256) 256 x hx comm_table))

pub length-zip_xor : (xs ys : List ℕ) → length xs ≡ length ys → length (zip_xor xs ys) ≡ length xs
unfolding zip_xor
length-zip_xor [] ys h = refl
length-zip_xor (x ∷ xs) [] h = absurd (omega arith)
length-zip_xor (x ∷ xs) (y ∷ ys) h = omega (arith, length-zip_xor xs ys (omega arith))

pub zip_xor_comm :
    (xs ys : List ℕ) → Bytes xs → Bytes ys → length xs ≡ length ys → zip_xor xs ys ≡ zip_xor ys xs
unfolding zip_xor
zip_xor_comm [] [] hx hy e = refl
zip_xor_comm [] (y ∷ ys) hx hy e = absurd (omega arith)
zip_xor_comm (x ∷ xs) [] hx hy e = absurd (omega arith)
zip_xor_comm (x ∷ xs) (y ∷ ys) hx hy e =
    rw (xor_comm x y hx.0 hy.0, zip_xor_comm xs ys hx.1 hy.1 (omega arith))

read_key_byte :
    (be : Bool) (key : ByteBuffer) (k y : ℕ) (ys : List ℕ)
    → IsValid key
    → drop k key.storage ≡ y ∷ ys
    → read_at be w8 k key ≡ ok y
unfolding read_at decode
read_key_byte be key k y ys v e =
    let inside : k + 1 ≤ size key = omega (arith, ap length e, length-drop k key.storage) in
    rw (bytes_at_lem k 1 key v inside, e) (ap ok (omega arith))

-- Where the key is as long as the data, each byte meets the byte at its place.
xor_loop_lem :
    (be : Bool) (key : ByteBuffer) (k : ℕ) (ds ys : List ℕ)
    → IsValid key
    → size key < 2 ^ 16
    → drop k key.storage ≡ ys
    → length ds ≡ length ys
    → Bytes ds
    → Bytes ys
    → xor_loop be key k ds ≡ ok (zip_xor ds ys)
unfolding xor_loop zip_xor
xor_loop_lem be key k [] ys v s e h hd hy = refl
xor_loop_lem be key k (d ∷ ds) [] v s e h hd hy = absurd (omega arith)
xor_loop_lem be key k (d ∷ []) (y ∷ ys) v s e h hd hy =
    rw (read_key_byte be key k y ys v e, xor_byte d y hd.0 hy.0)
xor_loop_lem be key k (d ∷ d' ∷ ds) (y ∷ ys) v s e h hd hy =
    let more : k + 1 < size key = omega (arith, ap length e, length-drop k key.storage) in
    let small : (k + 1) % 2 ^ 16 ≡ k + 1 = omega arith in
    rw (
      read_key_byte be key k y ys v e,
      xor_byte d y hd.0 hy.0,
      small,
      lt→ltb (k + 1) (size key) more,
      xor_loop_lem be key (k + 1) (d' ∷ ds) ys v s (sym (drop-drop 1 k key.storage) ∙ ap (drop 1) e)
          (omega arith) hd.1 hy.1,
    )

pub xor_buffer_lem :
    (be : Bool) (a b : ByteBuffer)
    → IsValid b
    → size b < 2 ^ 16
    → size a ≡ size b
    → Bytes a.storage
    → Bytes b.storage
    → xor_buffer be a b ≡ ok (record a { storage = zip_xor a.storage b.storage })
unfolding xor_buffer
xor_buffer_lem be a b v s e ha hb = rw (xor_loop_lem be b 0 a.storage b.storage v s refl e ha hb)

-- The contents of the key that one side derives: its own part, changed by the other's.
abbrev pub derived_key : Bool → ByteBuffer → ByteBuffer → Result (List ℕ)
derived_key be mine theirs = do k ← xor_buffer be mine theirs; ok k.storage

-- Both sides derive the same session key, for parts of one length below 65536.
pub key_agreement :
    (be : Bool) (a b : ByteBuffer)
    → IsValid a
    → IsValid b
    → size b < 2 ^ 16
    → size a ≡ size b
    → Bytes a.storage
    → Bytes b.storage
    → (derived_key be a b ≡ ok (zip_xor a.storage b.storage))
      × (derived_key be b a ≡ derived_key be a b)
key_agreement be a b va vb s e ha hb =
    let ab = xor_buffer_lem be a b vb s e ha hb in
    let ba = xor_buffer_lem be b a va (omega arith) (sym e) hb ha in
    (rw ab, rw (ab, ba, zip_xor_comm b.storage a.storage hb ha (sym e)))

-- Xor with an empty key throws, as soon as there is a byte to change.
pub xor_empty_key :
    (be : Bool) (a b : ByteBuffer) → size b ≡ 0 → 0 < size a → xor_buffer be a b ≡ err position
unfolding xor_buffer
xor_empty_key be a b z h = go a.storage h
  where
    go : (ds : List ℕ) → 0 < length ds → xor_buffer be (record a { storage = ds }) b ≡ err position
    go [] l = absurd (omega arith)
    go (d ∷ ds) l = unfold xor_loop read_at in rw (bytes_at_short 0 1 b (omega arith) (omega arith))
