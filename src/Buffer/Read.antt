-- ===== src/Buffer/Read.antt =====
-- What the reading methods see: the bytes from the read cursor on.
use project_secure_chat.Base.{
  ℕ, ◌+◌, ◌-◌, ◌%◌, ◌^◌, ◌≤◌, ◌<◌, ◌≡◌, sym, Bool, List, arith, lt→ltb, le→ltb, length, take, drop,
  length-drop, drop-drop,
}
use project_secure_chat.Base.Result.{ok, err, position}
use project_secure_chat.Buffer.Words.{Width, size_of, decode}
use project_secure_chat.Buffer.Defs.{
  ByteBuffer, size, bytes_at, read_at, read, read_bytes, read_skip,
}
use project_secure_chat.Buffer.Append.{IsValid, size_of-bounds}

abbrev pub unread : ByteBuffer → List ℕ
unread b = drop b.rpos b.storage

abbrev pub advance : ℕ → ByteBuffer → ByteBuffer
advance n b = record b { rpos = b.rpos + n }

pub length-unread : (b : ByteBuffer) → length (unread b) ≡ size b - b.rpos
length-unread b = length-drop b.rpos b.storage

pub unread-advance : (n : ℕ) (b : ByteBuffer) → unread (advance n b) ≡ drop n (unread b)
unread-advance n b = sym (drop-drop n b.rpos b.storage)

pub advance-IsValid :
    (n : ℕ) (b : ByteBuffer) → IsValid b → n ≤ length (unread b) → IsValid (advance n b)
advance-IsValid n b v h = record {
  read_inside = omega (arith, length-unread b, v.read_inside);
  write_at_end = v.write_at_end;
  fits = v.fits;
}

-- A block that lies in the buffer is delivered.
pub bytes_at_lem :
    (pos cnt : ℕ) (b : ByteBuffer)
    → IsValid b
    → pos + cnt ≤ size b
    → bytes_at pos cnt b ≡ ok (take cnt (drop pos b.storage))
unfolding bytes_at
bytes_at_lem pos cnt b v h =
    let sum : (pos + cnt) % 2 ^ 64 ≡ pos + cnt = omega (arith, v.fits) in
    rw (sum, le→ltb (size b) (pos + cnt) h)

-- A block that does not is refused, with no access to memory.
pub bytes_at_short :
    (pos cnt : ℕ) (b : ByteBuffer)
    → size b < pos + cnt
    → pos + cnt < 2 ^ 64
    → bytes_at pos cnt b ≡ err position
unfolding bytes_at
bytes_at_short pos cnt b h k =
    let sum : (pos + cnt) % 2 ^ 64 ≡ pos + cnt = omega arith in
    rw (sum, lt→ltb (size b) (pos + cnt) h)

pub read_bytes_lem :
    (n : ℕ) (b : ByteBuffer)
    → IsValid b
    → n ≤ length (unread b)
    → read_bytes n b ≡ ok (take n (unread b), advance n b)
unfolding read_bytes
read_bytes_lem n b v h =
    let inside : b.rpos + n ≤ size b = omega (arith, length-unread b, v.read_inside) in
    let sum : (b.rpos + n) % 2 ^ 64 ≡ b.rpos + n = omega (arith, v.fits, inside) in
    rw (bytes_at_lem b.rpos n b v inside, sum)

pub read_bytes_short :
    (n : ℕ) (b : ByteBuffer)
    → IsValid b
    → n < 2 ^ 62
    → length (unread b) < n
    → read_bytes n b ≡ err position
unfolding read_bytes
read_bytes_short n b v k h = rw (
    bytes_at_short b.rpos n b (omega (arith, length-unread b, v.read_inside))
      (omega (arith, v.fits, v.read_inside)))

pub read_skip_lem :
    (n : ℕ) (b : ByteBuffer) → IsValid b → n ≤ length (unread b) → read_skip n b ≡ ok (advance n b)
unfolding read_skip
read_skip_lem n b v h =
    let inside : b.rpos + n ≤ size b = omega (arith, length-unread b, v.read_inside) in
    let sum : (b.rpos + n) % 2 ^ 64 ≡ b.rpos + n = omega (arith, v.fits, inside) in
    rw (sum, le→ltb (size b) (b.rpos + n) inside)

pub read_lem :
    (be : Bool) (w : Width) (b : ByteBuffer)
    → IsValid b
    → size_of w ≤ length (unread b)
    → read be w b ≡ ok (decode be w (take (size_of w) (unread b)), advance (size_of w) b)
unfolding read read_at
read_lem be w b v h =
    let inside : b.rpos + size_of w ≤ size b = omega (arith, length-unread b, v.read_inside) in
    let sum : (b.rpos + size_of w) % 2 ^ 64 ≡ b.rpos + size_of w = omega (arith, v.fits, inside) in
    rw (bytes_at_lem b.rpos (size_of w) b v inside, sum)

pub read_short :
    (be : Bool) (w : Width) (b : ByteBuffer)
    → IsValid b
    → length (unread b) < size_of w
    → read be w b ≡ err position
unfolding read read_at
read_short be w b v h = rw (
    bytes_at_short b.rpos (size_of w) b (omega (arith, length-unread b, v.read_inside))
      (omega (arith, v.fits, v.read_inside, size_of-bounds w)))
