-- ===== src/Buffer/Words.antt =====
-- src/shared/utility/byteconverter.h, and the memory layout of the unsigned integers that
-- bytebuffer.h reads and writes. The processor is little-endian. Whether the macro BIG_ENDIAN is
-- defined where the header is compiled is the parameter `be`, for the header tests that macro and
-- not the byte order of the processor.
use project_secure_chat.Base.{
  ℕ, zero, suc, ◌+◌, ◌*◌, ◌/◌, ◌%◌, ◌^◌, ◌<◌, ◌≡◌, refl, ap, Bool, true, false, List, [], ◌∷◌,
  arith, length, get_or, set, if◌then◌else◌,
}
use mathlib.Core.List.{reverse}
use native.Mathlib.Nat.{pow-suc}

-- sizeof of uint8, uint16, uint32 and uint64; a signed integer is its bit pattern.
pub data Width : Type 0 where
  w8 w16 w32 w64 : Width

abbrev pub size_of : Width → ℕ
size_of w8 = 1
size_of w16 = 2
size_of w32 = 4
size_of w64 = 8

abbrev pub modulus : Width → ℕ
modulus w = 256 ^ size_of w

-- The bytes of a value as the processor stores them.
unfoldable pub le_bytes : ℕ → ℕ → List ℕ
le_bytes zero v = []
le_bytes (suc n) v = v % 256 ∷ le_bytes n (v / 256)

unfoldable pub from_le : List ℕ → ℕ
from_le [] = 0
from_le (b ∷ bs) = b + 256 * from_le bs

-- std::swap of two bytes of a block.
swap : ℕ → ℕ → List ℕ → List ℕ
swap i j bs = set (set bs i (get_or bs j 0)) j (get_or bs i 0)

-- ByteConverter::convert<T>, on the block from `off` on.
unfoldable pub convert : ℕ → ℕ → List ℕ → List ℕ
unfolding swap
convert zero off bs = bs
convert (suc zero) off bs = bs
convert (suc (suc t)) off bs = convert t (off + 1) (swap off (off + suc t) bs)

-- EndianConvert; the overload for one byte does nothing.
unfoldable pub endian_convert : Bool → Width → List ℕ → List ℕ
endian_convert be w8 bs = bs
endian_convert be w bs = if be then convert (size_of w) 0 bs else bs

-- The bytes that a value is appended as.
unfoldable pub encode : Bool → Width → ℕ → List ℕ
unfolding endian_convert convert le_bytes
encode be w v = endian_convert be w (le_bytes (size_of w) v)

unfoldable pub decode : Bool → Width → List ℕ → ℕ
unfolding endian_convert convert from_le
decode be w bs = from_le (endian_convert be w bs)

length-le_bytes : (n v : ℕ) → length (le_bytes n v) ≡ n
unfolding le_bytes
length-le_bytes zero v = refl
length-le_bytes (suc n) v = ap suc (length-le_bytes n (v / 256))

from_le-le_bytes : (n v : ℕ) → v < 256 ^ n → from_le (le_bytes n v) ≡ v
unfolding from_le le_bytes
from_le-le_bytes zero v h = omega arith
from_le-le_bytes (suc n) v h =
    omega (arith, from_le-le_bytes n (v / 256) (omega (arith, pow-suc 256 n)))

pub length-encode : (be : Bool) (w : Width) (v : ℕ) → length (encode be w v) ≡ size_of w
unfolding encode endian_convert convert le_bytes
length-encode be w8 v = refl
length-encode true w16 v = refl
length-encode true w32 v = refl
length-encode true w64 v = refl
length-encode false w16 v = refl
length-encode false w32 v = refl
length-encode false w64 v = refl

-- Twice the conversion of a value's bytes is no change, at each width.
convert-convert :
    (be : Bool) (w : Width) (v : ℕ)
    → endian_convert be w (endian_convert be w (le_bytes (size_of w) v)) ≡ le_bytes (size_of w) v
unfolding endian_convert convert le_bytes
convert-convert be w8 v = refl
convert-convert true w16 v = refl
convert-convert true w32 v = refl
convert-convert true w64 v = refl
convert-convert false w16 v = refl
convert-convert false w32 v = refl
convert-convert false w64 v = refl

-- A value that fits its type is read back from the bytes that it was written as.
pub decode-encode :
    (be : Bool) (w : Width) (v : ℕ) → v < modulus w → decode be w (encode be w v) ≡ v
unfolding decode encode
decode-encode be w v h = rw convert-convert (from_le-le_bytes (size_of w) v h)

-- Where the macro is defined, a value is written with its most significant byte first.
pub encode-reverse : (w : Width) (v : ℕ) → encode true w v ≡ reverse (encode false w v)
unfolding encode endian_convert convert le_bytes
encode-reverse w8 v = refl
encode-reverse w16 v = refl
encode-reverse w32 v = refl
encode-reverse w64 v = refl
