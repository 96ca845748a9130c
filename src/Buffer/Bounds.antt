-- ===== src/Buffer/Bounds.antt =====
-- When the reading methods of a well-formed buffer throw, and that they stay inside it.
use project_secure_chat.Base.{
  ℕ, ◌+◌, ◌-◌, ◌%◌, ◌^◌, ◌≤◌, ◌<◌, ◌≡◌, inl, inr, Bool, length, take, leb, lt→ltb, le→ltb,
  Bool-cases, arith, if◌then◌else◌, leb→le, leb→lt,
}
use project_secure_chat.Base.Result.{ok, err, position, out_of_bounds}
use project_secure_chat.Buffer.Words.{Width, size_of, decode}
use project_secure_chat.Buffer.Defs.{ByteBuffer, size, bytes_at, read, read_bytes}
use project_secure_chat.Buffer.Append.{IsValid}
use project_secure_chat.Buffer.Read.{
  unread, advance, read_bytes_lem, read_bytes_short, read_lem, read_short,
}

-- `read(dest, n)` on a well-formed buffer delivers the next n bytes and moves behind them if there
-- are as many, and throws the position exception otherwise.
pub read_bytes_exact :
    (n : ℕ) (b : ByteBuffer)
    → IsValid b
    → n < 2 ^ 62
    → read_bytes n b
      ≡ (if leb n (length (unread b)) then ok (take n (unread b), advance n b) else err position)
read_bytes_exact n b v h = elim (Bool-cases (leb n (length (unread b)))) [
  | inl e ↦ rw e (read_bytes_lem n b v (leb→le _ _ e))
  | inr e ↦ rw e (read_bytes_short n b v h (leb→lt _ _ e))
]

-- `>>` into an unsigned integer on a well-formed buffer decodes the next bytes and moves behind
-- them if there are enough, and throws the position exception otherwise.
pub read_exact :
    (be : Bool) (w : Width) (b : ByteBuffer)
    → IsValid b
    → read be w b ≡ (
        if leb (size_of w) (length (unread b))
        then ok (decode be w (take (size_of w) (unread b)), advance (size_of w) b)
        else err position)
read_exact be w b v = elim (Bool-cases (leb (size_of w) (length (unread b)))) [
  | inl e ↦ rw e (read_lem be w b v (leb→le _ _ e))
  | inr e ↦ rw e (read_short be w b v (leb→lt _ _ e))
]

-- The bounds check adds two sizes of 64 bits. Where the sum wraps round to a number within the
-- buffer the check lets the access through, and it goes outside.
pub bytes_at_wrap :
    (pos cnt : ℕ) (b : ByteBuffer)
    → size b < 2 ^ 62
    → 2 ^ 64 ≤ pos + cnt
    → pos + cnt ≤ 2 ^ 64 + size b
    → bytes_at pos cnt b ≡ err out_of_bounds
unfolding bytes_at
bytes_at_wrap pos cnt b h low high =
    let sum : (pos + cnt) % 2 ^ 64 ≡ pos + cnt - 2 ^ 64 = omega arith in
    rw (
      sum,
      le→ltb (size b) (pos + cnt - 2 ^ 64) (omega arith),
      lt→ltb (size b) (pos + cnt) (omega arith),
    )
