-- ===== src/Buffer/Defs.antt =====
-- src/shared/utility/bytebuffer.h: the class ByteBuffer. A method that may throw returns a
-- `Result`; the buffer of a call that throws is dropped, since no handler of the program reads it
-- again. size_t has 64 bits, and its sums wrap. Allocation below `max_size` succeeds.
use project_secure_chat.Base.{
  ℕ, zero, suc, ◌+◌, ◌-◌, ◌%◌, ◌^◌, Bool, true, false, not, ◌&&◌, ◌||◌, List, [], ◌∷◌, ◌++◌, ltb,
  ◌==◌, if◌then◌else◌, length, take, drop, replicate,
}
use project_secure_chat.Base.Result.{
  Result, ok, position, source, length_error, assertion, out_of_bounds, ◌>>=◌, ◌>>◌, throw_if,
}
use project_secure_chat.Buffer.Words.{Width, w8, size_of, encode, decode}

pub record ByteBuffer : Type 0 where
  pub rpos : ℕ
  pub wpos : ℕ
  pub storage : List ℕ

abbrev pub size : ByteBuffer → ℕ
size b = length b.storage

abbrev pub size_mod : ℕ
size_mod = 2 ^ 64

-- The largest size of a std::vector<uint8>.
abbrev pub max_size : ℕ
max_size = 2 ^ 63 - 1

-- assert(size() < 10000000)
abbrev pub append_limit : ℕ
append_limit = 10000000

abbrev pub add_size : ℕ → ℕ → ℕ
add_size a b = (a + b) % size_mod

abbrev pub empty : ByteBuffer
empty = record { rpos = 0; wpos = 0; storage = [] }

unfoldable pub clear : ByteBuffer → ByteBuffer
clear b = record { rpos = 0; wpos = 0; storage = [] }

-- _storage.resize(n): new bytes are 0.
abbrev pub resize_to : ℕ → List ℕ → List ℕ
resize_to n bs = take n bs ++ replicate (n - length bs) 0

-- memcpy(&_storage[pos], src, cnt)
abbrev pub overwrite : ℕ → List ℕ → List ℕ → List ℕ
overwrite pos src bs = take pos bs ++ (src ++ drop (pos + length src) bs)

unfoldable pub resize : ℕ → ByteBuffer → ByteBuffer
resize n b = let bs = resize_to n b.storage in record { rpos = 0; wpos = length bs; storage = bs }

unfoldable pub set_rpos : ℕ → ByteBuffer → ByteBuffer
set_rpos n b = record b { rpos = n }

unfoldable pub rfinish : ByteBuffer → ByteBuffer
rfinish b = record b { rpos = b.wpos }

-- append(src, cnt), where `src` is what stands in memory from the pointer to the end of its block.
unfoldable pub append_from : List ℕ → ℕ → ByteBuffer → Result ByteBuffer
append_from src cnt b = do
  throw_if (cnt == 0) source
  throw_if (not (ltb (size b) append_limit)) assertion
  let n = add_size b.wpos cnt
  throw_if (ltb (size b) n && ltb max_size n) length_error
  let grown = if ltb (size b) n then resize_to n b.storage else b.storage
  throw_if (ltb (length src) cnt || ltb (length grown) (b.wpos + cnt)) out_of_bounds
  ok (record b { storage = overwrite b.wpos (take cnt src) grown; wpos = n })

-- The same for a whole block.
unfoldable pub append_bytes : List ℕ → ByteBuffer → Result ByteBuffer
append_bytes bs b = append_from bs (length bs) b

-- append<T>(value), and `<<` for the integer types.
unfoldable pub append_value : Bool → Width → ℕ → ByteBuffer → Result ByteBuffer
append_value be w v b = append_bytes (encode be w v) b

-- `<<` for std::string and for char const*: the characters, then a zero.
unfoldable pub append_text : List ℕ → ByteBuffer → Result ByteBuffer
append_text t b = do
  b' ← if ltb 0 (length t) then append_bytes t b else ok b
  append_bytes (0 ∷ []) b'

-- append(const ByteBuffer&)
unfoldable pub append_buffer : ByteBuffer → ByteBuffer → Result ByteBuffer
append_buffer c b = if ltb 0 c.wpos then append_from c.storage c.wpos b else ok b

unfoldable pub put : ℕ → List ℕ → ByteBuffer → Result ByteBuffer
put pos src b = do
  throw_if (ltb (size b) (add_size pos (length src))) position
  throw_if (ltb (size b) (pos + length src)) out_of_bounds
  ok (record b { storage = overwrite pos src b.storage })

-- The `cnt` bytes at `pos`, behind the bounds check that the reading methods share.
unfoldable pub bytes_at : ℕ → ℕ → ByteBuffer → Result (List ℕ)
bytes_at pos cnt b = do
  throw_if (ltb (size b) (add_size pos cnt)) position
  throw_if (ltb (size b) (pos + cnt)) out_of_bounds
  ok (take cnt (drop pos b.storage))

-- read<T>(pos)
unfoldable pub read_at : Bool → Width → ℕ → ByteBuffer → Result ℕ
read_at be w pos b = do bs ← bytes_at pos (size_of w) b; ok (decode be w bs)

-- read<T>(), and `>>` for the integer types.
unfoldable pub read : Bool → Width → ByteBuffer → Result (ℕ × ByteBuffer)
read be w b = do v ← read_at be w b.rpos b; ok (v, record b { rpos = add_size b.rpos (size_of w) })

-- read(dest, len)
unfoldable pub read_bytes : ℕ → ByteBuffer → Result (List ℕ × ByteBuffer)
read_bytes len b = do bs ← bytes_at b.rpos len b; ok (bs, record b { rpos = add_size b.rpos len })

unfoldable pub read_skip : ℕ → ByteBuffer → Result ByteBuffer
read_skip skip b = do
  throw_if (ltb (size b) (add_size b.rpos skip)) position
  ok (record b { rpos = add_size b.rpos skip })

-- `>>` for bool: the byte as a signed char is positive.
unfoldable pub read_bool : Bool → ByteBuffer → Result (Bool × ByteBuffer)
read_bool be b = do (v, b') ← read be w8 b; ok (ltb 0 v && ltb v 128, b')

-- The loop of `>>` for std::string. The fuel counts the bytes not yet read.
unfoldable pub read_text_loop : Bool → ℕ → List ℕ → ByteBuffer → Result (List ℕ × ByteBuffer)
read_text_loop be zero t b = ok (t, b)
read_text_loop be (suc fuel) t b =
    if ltb b.rpos (size b)
    then (do
      (c, b') ← read be w8 b
      let rest = read_text_loop be fuel (t ++ c ∷ []) b'
      if c == 0 then ok (t, b') else rest)
    else ok (t, b)

-- `>>` for std::string.
unfoldable pub read_text : Bool → ByteBuffer → Result (List ℕ × ByteBuffer)
unfolding read_text_loop
read_text be b = read_text_loop be (size b - b.rpos) [] b

unfoldable pub bytes_eq : List ℕ → List ℕ → Bool
bytes_eq [] [] = true
bytes_eq (x ∷ xs) (y ∷ ys) = x == y && bytes_eq xs ys
bytes_eq _ _ = false

-- compare(const uint8*): memcmp over the whole of this buffer.
unfoldable pub compare : List ℕ → ByteBuffer → Result Bool
compare mem b = do
  throw_if (ltb (length mem) (size b)) out_of_bounds
  ok (bytes_eq b.storage (take (size b) mem))
